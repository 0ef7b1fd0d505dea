-- ===== src/Pdu/Cycle/Containers.antt =====
-- The I-PDUs that a container is set up with.
use dse_modelc.Base.{
  ℕ, zero, suc, ◌+◌, ◌≡◌, refl, sym, ap, subst, ◌∙◌, inl, inr, true, ◌&&◌, some, List, [], ◌∷◌,
  ◌++◌, map, arith, All, Bool-cases, append_assoc, some_cancel, length, length-append, get_elem?,
  ◌==◌,
}
use dse_modelc.Double.{Double}
use dse_modelc.Pdu.{Direction, MPduItem, PduItem, PduObject, Net}
use dse_modelc.Pdu.Schedule.{is_container}
use dse_modelc.Pdu.Matrix.Transform.{
  make_object, place_object, place_objects, same_direction, matrix_transform,
}
use dse_modelc.Pdu.Cycle.{map_pdu, map_pdus, setup_container, pdunet_transform}

direction_eq : (d e : Direction) → same_direction d e ≡ true → d ≡ e
direction_eq Direction.none Direction.none h = refl
direction_eq Direction.none Direction.rx h = absurd (ground arith)
direction_eq Direction.none Direction.tx h = absurd (ground arith)
direction_eq Direction.rx Direction.none h = absurd (ground arith)
direction_eq Direction.rx Direction.rx h = refl
direction_eq Direction.rx Direction.tx h = absurd (ground arith)
direction_eq Direction.tx Direction.none h = absurd (ground arith)
direction_eq Direction.tx Direction.rx h = absurd (ground arith)
direction_eq Direction.tx Direction.tx h = refl

All-append : {A : Type 0} (P : A → Type 0) (xs ys : List A) → All P xs → All P ys → All P (xs ++ ys)
All-append P [] ys hx hy = hy
All-append P (x ∷ xs) ys hx hy = (hx.0, All-append P xs ys hx.1 hy)

module _ {D : Type 0} where
  -- The item leads to an I-PDU of its id, in the direction of the container and with its id.
  abbrev pub IsMapped : List (PduObject D) → PduItem D → MPduItem → Type 0
  IsMapped pdus c m =
      (o : PduObject D) × (get_elem? pdus m.pdu ≡ some o)
      × (o.item.id ≡ m.id)
      × (o.item.container_id ≡ c.id)
      × (o.item.dir ≡ c.dir)

  -- The object stands at its index.
  abbrev pub IsAt : List (PduObject D) → PduObject D → Type 0
  IsAt pdus o = get_elem? pdus o.pdu_idx ≡ some o

  at_append :
      (before rest : List (PduObject D)) (o : PduObject D)
      → get_elem? (before ++ o ∷ rest) (length before) ≡ some o
  at_append [] rest o = refl
  at_append (x ∷ before) rest o = at_append before rest o

  map_pdus-IsMapped :
      (pdus : List (PduObject D)) (c : PduObject D) (os : List (PduObject D))
      → All (IsAt pdus) os
      → All (IsMapped pdus c.item) (map_pdus c os)
  unfolding map_pdus map_pdu
  map_pdus-IsMapped pdus c [] h = tt
  map_pdus-IsMapped pdus c (o ∷ os) h =
      let rest = map_pdus-IsMapped pdus c os h.1 in
      elim (Bool-cases (same_direction o.item.dir c.item.dir && o.item.container_id == c.item.id)) [
        | inr other ↦ rw (map_pdus, map_pdu, other) rest
        | inl its ↦
            let dir : same_direction o.item.dir c.item.dir ≡ true = ground arith in
            let id : o.item.container_id ≡ c.item.id = ground arith in
            rw (map_pdus, map_pdu, its)
              ((o, h.0, refl, id, direction_eq o.item.dir c.item.dir dir), rest)
      ]

  at-map :
      (f : PduObject D → PduObject D) (os : List (PduObject D)) (i : ℕ) (o : PduObject D)
      → get_elem? os i ≡ some o
      → get_elem? (map f os) i ≡ some (f o)
  at-map f [] i o e = absurd (ground arith)
  at-map f (x ∷ os) zero o e = ap some (ap f (some_cancel e))
  at-map f (x ∷ os) (suc i) o e = at-map f os i o e

  setup_container-item :
      (sort : List MPduItem → List MPduItem) (pdus : List (PduObject D)) (o : PduObject D)
      → (setup_container sort pdus o).item ≡ o.item
  unfolding setup_container
  setup_container-item sort pdus o = elim (Bool-cases (is_container o.header)) [
    | inl e ↦ rw (setup_container, e)
    | inr e ↦ rw (setup_container, e)
  ]

  -- The containers are set up among objects that keep their items, ids and indexes.
  container-IsMapped :
      (sort : List MPduItem → List MPduItem) (pdus : List (PduObject D)) (c : PduObject D)
      → ((P : MPduItem → Type 0) (ms : List MPduItem) → All P ms → All P (sort ms))
      → All (IsAt pdus) pdus
      → c.pdu_list ≡ []
      → All
          (IsMapped (map (setup_container sort pdus) pdus) c.item)
          (setup_container sort pdus c).pdu_list
  unfolding setup_container
  container-IsMapped sort pdus c keeps h none_yet = elim (Bool-cases (is_container c.header)) [
    | inr other ↦ rw (setup_container, other, none_yet) tt
    | inl its ↦
        rw (setup_container, its)
          (keeps (IsMapped (map (setup_container sort pdus) pdus) c.item) (map_pdus c pdus)
            (all_moved (map_pdus c pdus) (map_pdus-IsMapped pdus c pdus h)))
  ]
    where
      moved :
          (m : MPduItem)
          → IsMapped pdus c.item m
          → IsMapped (map (setup_container sort pdus) pdus) c.item m
      moved m (o, at, id, container, dir) =
          let same = setup_container-item sort pdus o in
          (
            setup_container sort pdus o,
            at-map (setup_container sort pdus) pdus m.pdu o at,
            ap (λ p. p.id) same ∙ id,
            ap (λ p. p.container_id) same ∙ container,
            ap (λ p. p.dir) same ∙ dir,
          )

      all_moved :
          (ms : List MPduItem)
          → All (IsMapped pdus c.item) ms
          → All (IsMapped (map (setup_container sort pdus) pdus) c.item) ms
      all_moved [] h = tt
      all_moved (m ∷ ms) h = (moved m h.0, all_moved ms h.1)

  -- Each object with the items that its list has.
  containers-IsMapped :
      (sort : List MPduItem → List MPduItem) (pdus os : List (PduObject D))
      → ((P : MPduItem → Type 0) (ms : List MPduItem) → All P ms → All P (sort ms))
      → All (IsAt pdus) pdus
      → All (λ c. c.pdu_list ≡ []) os
      → All
          (λ c. All (IsMapped (map (setup_container sort pdus) pdus) c.item) c.pdu_list)
          (map (setup_container sort pdus) os)
  containers-IsMapped sort pdus [] keeps h none_yet = tt
  containers-IsMapped sort pdus (c ∷ os) keeps h none_yet = (
    subst
        (λ p.
          All (IsMapped (map (setup_container sort pdus) pdus) p)
            (setup_container sort pdus c).pdu_list)
        (sym (setup_container-item sort pdus c))
        (container-IsMapped sort pdus c keeps h none_yet.0),
    containers-IsMapped sort pdus os keeps h none_yet.1,
  )

  make_object-empty :
      (items : List (PduItem D)) → All (λ c. c.pdu_list ≡ []) (map make_object items)
  make_object-empty [] = tt
  make_object-empty (p ∷ ps) = (refl, make_object-empty ps)

module _ {D : Type 0} (double : Double D) (step_size : D) where
  place_objects-IsAt :
      (idx n : ℕ) (os : List (PduObject D)) (before : List (PduObject D))
      → length before ≡ idx
      → let placed = place_objects double step_size idx n os in
        All (IsAt (before ++ placed.0)) placed.0
  unfolding place_objects
  place_objects-IsAt idx n [] before e = tt
  place_objects-IsAt idx n (o ∷ os) before e =
      let one = place_object double step_size idx n o in
      let rest = place_objects double step_size (idx + 1) (n + length o.item.signals) os in
      let next : length (before ++ one ∷ []) ≡ idx + 1 =
        omega (arith, length-append before (one ∷ [])) in
      (
        subst (λ i. get_elem? (before ++ one ∷ rest.0) i ≡ some one) e
            (at_append before rest.0 one),
        subst (λ pdus. All (IsAt pdus) rest.0) (append_assoc before (one ∷ []) rest.0)
            (place_objects-IsAt (idx + 1) (n + length o.item.signals) os (before ++ one ∷ []) next),
      )

  place_objects-empty :
      (idx n : ℕ) (os : List (PduObject D))
      → All (λ c. c.pdu_list ≡ []) os
      → All (λ c. c.pdu_list ≡ []) (place_objects double step_size idx n os).0
  unfolding place_objects
  place_objects-empty idx n [] h = tt
  place_objects-empty idx n (o ∷ os) h =
      (h.0, place_objects-empty (idx + 1) (n + length o.item.signals) os h.1)

-- In a network that is transformed, every item in the list of a PDU object leads to an object of the
-- item's id, with the object's direction, whose container id is the object's id; the sorts must give
-- objects and items that are among those to be sorted.
pub pdunet_transform-IsMapped :
    {D L : Type 0} (double : Double D) (sort : List (PduObject D) → List (PduObject D))
    (sort_items : List MPduItem → List MPduItem) (items : List (PduItem D)) (net : Net D L)
    → ((P : PduObject D → Type 0) (os : List (PduObject D)) → All P os → All P (sort os))
    → ((P : MPduItem → Type 0) (ms : List MPduItem) → All P ms → All P (sort_items ms))
    → let net' = pdunet_transform double sort sort_items items net in
      All (λ c. All (IsMapped net'.pdus c.item) c.pdu_list) net'.pdus
unfolding pdunet_transform matrix_transform
pdunet_transform-IsMapped double sort sort_items items net keeps keeps_items =
    let objects = sort (map make_object items) in
    let pdus = (place_objects double net.clock.step_size 0 0 objects).0 in
    containers-IsMapped sort_items pdus pdus keeps_items
      (place_objects-IsAt double net.clock.step_size 0 0 objects [] refl)
      (place_objects-empty double net.clock.step_size 0 0 objects
        (keeps (λ c. c.pdu_list ≡ []) (map make_object items) (make_object-empty items)))
