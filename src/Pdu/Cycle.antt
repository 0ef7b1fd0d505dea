-- ===== src/Pdu/Cycle.antt =====
-- The operations of a whole network: pdunet_transform() and the set-up of its containers in
-- dse/modelc/model/pdunet/network.c, and pdunet_tx() and pdunet_rx() of dse/modelc/model/pdunet.c.
pub mod Containers
use dse_modelc.Base.{
  ℕ, zero, suc, ◌+◌, Bool, true, false, ◌&&◌, Option, none, some, List, [], ◌∷◌, ◌++◌, map, length,
  ◌==◌, if◌then◌else◌, ◌>>=◌,
}
use dse_modelc.Double.{Double}
use dse_modelc.Pdu.{Direction, MPduItem, PduItem, PduObject, Net}
use dse_modelc.Pdu.Schedule.{is_container, schedule}
use dse_modelc.Pdu.Script.{Scripts}
use dse_modelc.Pdu.Tx.{visit_net, visit_needs_tx, visit_clear_update_flag}
use dse_modelc.Pdu.Matrix.Transform.{same_direction, matrix_transform}
use dse_modelc.Pdu.Ranges.{encode_linear, encode_pack, decode_unpack, decode_linear_ranges}
use dse_modelc.Pdu.Container.MapTo.{container_mapto}
use dse_modelc.Pdu.Container.MapFrom.{Run, attempt, container_mapfrom}

module _ {D : Type 0} where
  -- pdunet_visit_map_pdu(): an I-PDU of the container.
  unfoldable pub map_pdu : PduObject D → PduObject D → List MPduItem
  map_pdu c o =
      if same_direction o.item.dir c.item.dir && o.item.container_id == c.item.id
      then record { id = o.item.id; priority = o.item.container_priority; pdu = o.pdu_idx } ∷ []
      else []

  unfoldable pub map_pdus : PduObject D → List (PduObject D) → List MPduItem
  map_pdus c [] = []
  map_pdus c (o ∷ os) = map_pdu c o ++ map_pdus c os

  -- pdunet_visit_setup_containers(), with the vector_sort() of the items.
  unfoldable pub setup_container :
      (List MPduItem → List MPduItem) → List (PduObject D) → PduObject D → PduObject D
  setup_container sort os c =
      if is_container c.header then record c { pdu_list = sort (map_pdus c os) } else c

-- The matrix, and then the containers.
unfoldable pub pdunet_transform :
    {D L : Type 0}
    → Double D
    → (List (PduObject D) → List (PduObject D))
    → (List MPduItem → List MPduItem)
    → List (PduItem D)
    → Net D L
    → Net D L
pdunet_transform double sort sort_items items net =
    let net' = matrix_transform double sort items net in
    record net' { pdus = map (setup_container sort_items net'.pdus) net'.pdus }

-- What is outside the network: the marshalling from and to the signal vector, the configuration, the
-- transmission, the reception and the status of the transport, where it has them, and the calls of
-- the codec. They work on the network and on the state that `lua` stands for.
pub record Transport (D L : Type 0) : Type 0 where
  pub marshal_tx : Net D L → Net D L
  pub marshal_back : Net D L → Net D L
  pub marshal_rx : Net D L → Net D L
  pub truncate : Net D L → Net D L
  pub flush : Net D L → Net D L
  pub seek : Net D L → Net D L
  pub config : Option (Net D L → Net D L)
  pub lpdu_tx : Option (Net D L → Net D L)
  pub lpdu_rx : Option (Net D L → Net D L)
  pub status : Option (Net D L → Net D L)

unfoldable pub if_given : {A : Type 0} → Option (A → A) → A → A
if_given none a = a
if_given (some f) a = f a

module _ {D L : Type 0} (double : Double D) (scripts : Scripts D L) where
  -- The visitor for each container, from an index on.
  unfoldable pub mapto_from : ℕ → ℕ → Net D L → Option (Net D L)
  mapto_from zero idx net = some net
  mapto_from (suc n) idx net = container_mapto scripts idx net >>= mapto_from n (idx + 1)

  unfoldable pub mapfrom_from : ℕ → ℕ → ℕ → Net D L → Run (Net D L)
  mapfrom_from rounds zero idx net = Run.ended net
  mapfrom_from rounds (suc n) idx net = elim (container_mapfrom scripts net.pdus rounds idx net) [
    | Run.running ↦ Run.running
    | Run.fault ↦ Run.fault
    | Run.ended net' ↦ mapfrom_from rounds n (idx + 1) net'
  ]

  -- The normalised time; one before the start is the start.
  unfoldable pub set_time : D → Net D L → Net D L
  set_time time net =
      let t = if double.lt time double.zero then double.zero else time in
      record net {
        clock = record (net.clock) {
          simulation_time =
              double.to_u32
                (double.div (double.add t net.clock.step_size_epsilon) net.clock.step_size);
        };
      }

  -- pdunet_tx() with the visitor of the caller; `config_done` tells whether the network has been
  -- configured.
  unfoldable pub pdunet_tx :
      Transport D L → Option (Net D L → Net D L) → Bool → D → Net D L → Option (Net D L)
  pdunet_tx t visit config_done time net =
      let begun = t.truncate (t.marshal_tx net) in
      let ready = if config_done then begun else if_given t.config begun in
      encode_linear double scripts (schedule double (set_time time ready)) >>= (λ linear.
        encode_pack double scripts linear >>= (λ packed.
          let checked = visit_net (visit_needs_tx scripts) packed in
          mapto_from (length checked.pdus) 0 checked >>= (λ mapped. some (
            t.marshal_back
              (t.flush (if_given t.status (if_given t.lpdu_tx (if_given visit mapped))))))))

  -- pdunet_rx(), with a number of rounds for the loop over each container.
  unfoldable pub pdunet_rx :
      ℕ → Transport D L → Option (Net D L → Net D L) → Net D L → Run (Net D L)
  pdunet_rx rounds t visit net =
      let received = if_given t.lpdu_rx (t.seek net) in
      elim (mapfrom_from rounds (length received.pdus) 0 received) [
        | Run.running ↦ Run.running
        | Run.fault ↦ Run.fault
        | Run.ended mapped ↦
            attempt (decode_unpack double scripts (if_given visit mapped)) (λ unpacked.
              attempt (decode_linear_ranges double scripts unpacked) (λ linear.
                Run.ended (t.marshal_rx (visit_net (visit_clear_update_flag scripts) linear))))
      ]
