-- ===== src/Rpc/Carried.antt =====
-- What one end of main/p2p/Rpc.cpp sends, the other receives, PDU by PDU.
use bicast.Base.{
  ℕ, ◌≤◌, ◌<◌, ◌^◌, List, [], ◌∷◌, map, length, All, ℕ_discrete, none, some, ◌==◌, if◌then◌else◌,
  ◌≡◌, ◌++◌, ◌∙◌, refl, sym, subst, arith,
}
use bicast.Base.Sets.{IsUnique}
use bicast.Inet
use bicast.Inet.{SockAddr}
use bicast.Xprt.{Write, Read, ◌then_write◌, ◌>>=◌, pure}
use bicast.Xprt.Carries.{Carries, Carries-skip}
use bicast.Xprt.Delivers.{Delivers, Carries-Delivers, Delivers-seq, Delivers-map, Delivers-then}
use bicast.Xprt.Times.{whole_usecs}
use bicast.Proto.{ProdId, DataSegId, ProdInfo, ProdIdSet, max_pdu_id, write_pdu_id, read_pdu_id}
use bicast.Proto
use bicast.Proto.Carried.{write_pdu_id-Carries, write_data_seg_id-Carries, write_prod_info-Carries}
use bicast.Proto.Ids.{AreIds, write_prod_id-Carries, write_prod_id_set-Carries}
use bicast.DataSeg.{DataSeg, unset, store, payload, get_size}
use bicast.DataSeg
use bicast.SrvrInfo.{SrvrInfo, write_srvr_info, read_srvr_info}
use bicast.SrvrInfo
use bicast.Tracker.{Tracker}
use bicast.SrvrInfo.Carried.{write_srvr_info-Delivers}
use bicast.Rpc.{
  Pdu, srvr_info, tracker, srvr_info_notice, prod_info_notice, data_seg_notice, previously_received,
  prod_info_request, data_seg_request, prod_info, data_seg, heartbeat, send, dispatch, recv,
  send_all, run_reader,
}

-- Information on a server that a connection can carry.
abbrev pub IsSrvrWire : SrvrInfo → Type 0
IsSrvrWire i =
    (inet : Inet.Impl) × ((port : ℕ) × ((i.srvr_addr
          ≡ some (record { inet_addr = some inet; port = port }))
        × SrvrInfo.Carried.IsWire inet port i.tier i.num_avail i.valid))

abbrev pub IsIdWire : DataSegId → Type 0
IsIdWire s = (s.prod_id < 2 ^ 64) × (s.offset < 2 ^ 32)

srvr_info-Delivers :
    (i : SrvrInfo)
    → IsSrvrWire i
    → Delivers (write_srvr_info i) read_srvr_info (record i { valid = whole_usecs i.valid })
srvr_info-Delivers i (inet, (port, (e, w))) =
    subst
      (λ a.
        Delivers (write_srvr_info (record i { srvr_addr = a })) read_srvr_info
          (record i { srvr_addr = a; valid = whole_usecs i.valid }))
      (sym e) (write_srvr_info-Delivers inet port i.tier i.num_avail i.valid w)

module _ (m : ℕ) (new_tracker : Tracker) where
  -- A PDU that a connection can carry. The information of a tracker is not among them.
  abbrev pub IsSent : Pdu → Type 0
  IsSent (srvr_info i) = IsSrvrWire i
  IsSent (tracker t) = ⊥
  IsSent (srvr_info_notice i) = IsSrvrWire i
  IsSent (prod_info_notice id) = id < 2 ^ 64
  IsSent (data_seg_notice id) = IsIdWire id
  IsSent (previously_received ids) = IsUnique ℕ_discrete ids × (AreIds ids × (length ids < 2 ^ 32))
  IsSent (prod_info_request id) = id < 2 ^ 64
  IsSent (data_seg_request id) = IsIdWire id
  IsSent (prod_info i) = Proto.Carried.IsWire i
  IsSent (data_seg s) = DataSeg.Carried.IsWire m s
  IsSent heartbeat = Unit {0}

  -- A segment that arrives: it has a buffer of its size with its bytes, or none if it has no bytes.
  abbrev pub copied : DataSeg → DataSeg
  copied s = record {
    seg_id = s.seg_id;
    prod_size = s.prod_size;
    buf_size = get_size m s;
    buf = if get_size m s == 0 then none else some (payload m s);
  }

  store-copied : (s : DataSeg) → store m unset s.seg_id s.prod_size (payload m s) ≡ copied s
  unfolding store get_size
  store-copied s = ground arith

  -- The PDU that arrives: times are whole microseconds.
  unfoldable pub arrived : Pdu → Pdu
  arrived (srvr_info i) = srvr_info (record i { valid = whole_usecs i.valid })
  arrived (srvr_info_notice i) = srvr_info_notice (record i { valid = whole_usecs i.valid })
  arrived (prod_info i) = prod_info i
  arrived (data_seg s) = data_seg (copied s)
  arrived p = p

  -- A PDU's identifier is read before the rest.
  tagged :
      {A : Type 0} {w : Write} {r : Read A} {a : A} (tag : ℕ) (make : A → Pdu)
      → tag ≤ max_pdu_id
      → ((rest : List ℕ) → dispatch m new_tracker tag rest ≡ (r >>= λ x. pure (make x)) rest)
      → Delivers w r a
      → Delivers (write_pdu_id tag then_write w) (recv m new_tracker) (make a)
  unfolding recv
  tagged tag make h same d =
      let body = Delivers-map make d in
      Delivers-seq (dispatch m new_tracker) (Carries-Delivers (write_pdu_id-Carries tag h))
        (record {
          bytes = body.bytes;
          sends = body.sends;
          reads = λ rest. same (body.bytes ++ rest) ∙ body.reads rest;
        })

  pub send-Delivers :
      (p : Pdu) → IsSent p → Delivers (send m new_tracker p) (recv m new_tracker) (arrived p)
  unfolding send arrived dispatch recv
  send-Delivers (srvr_info i) w =
      tagged 1 srvr_info (omega arith) (λ rest. refl) (srvr_info-Delivers i w)
  send-Delivers (tracker t) w = absurd w
  send-Delivers (srvr_info_notice i) w =
      tagged 3 srvr_info_notice (omega arith) (λ rest. refl) (srvr_info-Delivers i w)
  send-Delivers (prod_info_notice id) w =
      tagged 4 prod_info_notice (omega arith) (λ rest. refl)
        (Carries-Delivers (write_prod_id-Carries id w))
  send-Delivers (data_seg_notice id) w =
      tagged 5 data_seg_notice (omega arith) (λ rest. refl)
        (Carries-Delivers (write_data_seg_id-Carries id w.0 w.1))
  send-Delivers (previously_received ids) w =
      tagged 6 previously_received (omega arith) (λ rest. refl)
        (Carries-Delivers (write_prod_id_set-Carries ids w.0 w.1.0 w.1.1))
  send-Delivers (prod_info_request id) w =
      tagged 7 prod_info_request (omega arith) (λ rest. refl)
        (Carries-Delivers (write_prod_id-Carries id w))
  send-Delivers (data_seg_request id) w =
      tagged 8 data_seg_request (omega arith) (λ rest. refl)
        (Carries-Delivers (write_data_seg_id-Carries id w.0 w.1))
  send-Delivers (prod_info i) w =
      tagged 9 prod_info (omega arith) (λ rest. refl)
        (Carries-Delivers (write_prod_info-Carries i w))
  send-Delivers (data_seg s) w =
      tagged 10 data_seg (omega arith) (λ rest. refl)
        (Carries-Delivers (
          subst (Carries (DataSeg.write_data_seg m s) (DataSeg.read_data_seg m unset))
            (store-copied s) (DataSeg.Carried.write_data_seg-Carries m unset s w)))
  send-Delivers heartbeat w =
      Delivers-then (dispatch m new_tracker)
        (Carries-Delivers (write_pdu_id-Carries 11 (omega arith))) (λ rest. refl)

  -- Any sequence of PDUs that a connection can carry (not the information of a whole tracker),
  -- sent by the calls of `Rpc` one after the other, is written as some bytes, all or none of
  -- which the connection accepts; and from these, whatever follows them, as many rounds of the
  -- loop of `runReader` receive the same PDUs in their order, times as whole microseconds and a
  -- segment with its bytes.
  pub run_reader_lem :
      (ps : List Pdu)
      → All IsSent ps
      → Delivers (send_all m new_tracker ps) (run_reader m new_tracker (length ps)) (map arrived ps)
  unfolding send_all run_reader
  run_reader_lem [] w = Carries-Delivers (Carries-skip [] (λ o. refl))
  run_reader_lem (p ∷ ps) (w, rest) =
      Delivers-seq (λ q. run_reader m new_tracker (length ps) >>= λ qs. pure (q ∷ qs))
        (send-Delivers p w) (Delivers-map (λ qs. arrived p ∷ qs) (run_reader_lem ps rest))
