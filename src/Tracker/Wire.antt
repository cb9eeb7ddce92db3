-- ===== src/Tracker/Wire.antt =====
-- How main/p2p/Tracker.cpp writes and reads the information on its servers.
use bicast.Base.{ℕ, zero, suc, ◌%◌, ◌^◌, [], ◌∷◌, length, Bool}
use bicast.Base.Result.{Result, ok, raise}
use bicast.SrvrInfo.{write_srvr_info, read_srvr_info}
use bicast.Xprt
use bicast.Xprt.{Write, Read, Io, ◌then_write◌, pure, write32, read32}
use bicast.Tracker.{Infos, Tracker, try_add}

unfoldable pub write_infos : Infos → Write
write_infos [] o = Io.ok o
write_infos (e ∷ infos) o = (write_srvr_info e.1 then_write write_infos infos) o

unfoldable pub write : Tracker → Write
write t = write32 (length t.srvr_infos % 2 ^ 32) then_write write_infos t.srvr_infos

unfoldable pub cleared : Tracker → Tracker
cleared t = record t { srvr_infos = []; srvr_queue = []; delay_queue = [] }

-- The loop of `read`. What it has read before the connection is lost is not part of the outcome.
unfoldable pub added : Result (Bool × Tracker) → Read Tracker
added (ok r) i = Io.ok (r.1, i)
added (raise e) i = Io.raise e

unfoldable pub read_infos : ℕ → Tracker → Read Tracker
read_infos zero t = pure t
read_infos (suc n) t =
    Xprt.◌>>=◌ read_srvr_info (λ i. Xprt.◌>>=◌ (added (try_add i t)) (λ t2. read_infos n t2))

unfoldable pub read : Tracker → Read Tracker
read t = Xprt.◌>>=◌ read32 (λ size. read_infos size (cleared t))
