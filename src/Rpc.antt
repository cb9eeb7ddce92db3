-- ===== src/Rpc.antt =====
-- `RpcImpl` of main/p2p/Rpc.cpp: the protocol data units (PDUs) that go over a peer connection. What
-- `dispatch` calls of the peer, with its argument, is the unit that is received. `flush` does nothing on
-- a TCP connection.
pub mod Carried
use bicast.Base.{ℕ, zero, suc, ◌==◌, List, [], ◌∷◌, if◌then◌else◌}
use bicast.Base.Result.{runtime_error}
use bicast.Xprt.{Write, Read, ◌then_write◌, ◌>>=◌, pure, fail}
use bicast.Xprt
use bicast.Proto.{
  ProdId, DataSegId, ProdInfo, ProdIdSet, write_pdu_id, read_pdu_id, write_prod_id, read_prod_id,
  write_data_seg_id, read_data_seg_id, write_prod_info, read_prod_info, write_prod_id_set,
  read_prod_id_set,
}
use bicast.DataSeg.{DataSeg, unset, write_data_seg, read_data_seg}
use bicast.SrvrInfo.{SrvrInfo, write_srvr_info, read_srvr_info}
use bicast.Tracker.{Tracker}
use bicast.Tracker.Wire

pub data Pdu : Type 0 where
  srvr_info : SrvrInfo → Pdu
  tracker : Tracker → Pdu
  srvr_info_notice : SrvrInfo → Pdu
  prod_info_notice : ProdId → Pdu
  data_seg_notice : DataSegId → Pdu
  previously_received : ProdIdSet → Pdu
  prod_info_request : ProdId → Pdu
  data_seg_request : DataSegId → Pdu
  prod_info : ProdInfo → Pdu
  data_seg : DataSeg → Pdu
  heartbeat : Pdu

-- `new_tracker` is `Tracker{}`.
module _ (max_seg_size : ℕ) (new_tracker : Tracker) where
  -- The overloads of `send`, `notify` and `request`, and `sendHeartbeat`.
  unfoldable pub send : Pdu → Write
  send (srvr_info i) = write_pdu_id 1 then_write write_srvr_info i
  send (tracker t) = write_pdu_id 2 then_write Wire.write t
  send (srvr_info_notice i) = write_pdu_id 3 then_write write_srvr_info i
  send (prod_info_notice id) = write_pdu_id 4 then_write write_prod_id id
  send (data_seg_notice id) = write_pdu_id 5 then_write write_data_seg_id id
  send (previously_received ids) = write_pdu_id 6 then_write write_prod_id_set ids
  send (prod_info_request id) = write_pdu_id 7 then_write write_prod_id id
  send (data_seg_request id) = write_pdu_id 8 then_write write_data_seg_id id
  send (prod_info i) = write_pdu_id 9 then_write write_prod_info i
  send (data_seg s) = write_pdu_id 10 then_write write_data_seg max_seg_size s
  send heartbeat = write_pdu_id 11

  unfoldable pub dispatch : ℕ → Read Pdu
  dispatch id =
      if id == 5
      then (read_data_seg_id >>= λ x. pure (data_seg_notice x))
      else if id == 4
      then (read_prod_id >>= λ x. pure (prod_info_notice x))
      else if id == 1
      then (read_srvr_info >>= λ x. pure (srvr_info x))
      else if id == 2
      then (Wire.read new_tracker >>= λ x. pure (tracker x))
      else if id == 3
      then (read_srvr_info >>= λ x. pure (srvr_info_notice x))
      else if id == 11
      then pure heartbeat
      else if id == 6
      then (read_prod_id_set >>= λ x. pure (previously_received x))
      else if id == 8
      then (read_data_seg_id >>= λ x. pure (data_seg_request x))
      else if id == 7
      then (read_prod_id >>= λ x. pure (prod_info_request x))
      else if id == 10
      then (read_data_seg max_seg_size unset >>= λ x. pure (data_seg x))
      else if id == 9
      then (read_prod_info >>= λ x. pure (prod_info x))
      else fail runtime_error

  unfoldable pub recv : Read Pdu
  recv = read_pdu_id >>= dispatch

  -- The calls of one end, one after the other, and the first `n` rounds of the other end's `runReader`.
  unfoldable pub send_all : List Pdu → Write
  send_all [] o = Xprt.ok o
  send_all (p ∷ ps) o = (send p then_write send_all ps) o

  unfoldable pub run_reader : ℕ → Read (List Pdu)
  run_reader zero = pure []
  run_reader (suc n) = recv >>= λ p. run_reader n >>= λ ps. pure (p ∷ ps)
