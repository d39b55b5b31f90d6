-- ===== src/VoxelMap/Nearest.antt =====
-- The priority queue of the radius search (include/ct_icp/map.h) keeps the nearest candidates.
use mathlib.Core.List.{Perm, perm_middle}
use mathlib.Core.List.Perm
use ct_icp_comment.Common.{
  ℕ, suc, ◌≤◌, ◌<◌, ◌≡◌, refl, sym, ap, ◌∙◌, subst, ◌⊎◌, inl, inr, true, false, List, [], ◌∷◌, ◌++◌,
  append_assoc, append-nil, arith, ◌==◌, if◌then◌else◌, Bool-cases, length, All, Outcome, ok, fail,
  ◌>>=◌, Succeeds, Succeeds->>=, Succeeds-map, bad_index,
}
use ct_icp_comment.Common.{Double, IsOrdered}
use ct_icp_comment.VoxelMap.Search.{Neighbor, emplace_neighbor, offer}

module _ {D V : Type 0} ⦃d : Double D⦄ where
  -- From far to near.
  abbrev pub IsDescending : List (Neighbor D V) → Type 0
  IsDescending [] = Unit
  IsDescending (e ∷ es) = All (λ f. d.lt e.distance f.distance ≡ false) es × IsDescending es

  -- A queue of the nearest of the candidates, at most `most`: with those that were dropped before it,
  -- it is the candidates from far to near, and none is dropped while there is room.
  pub record IsNearest (most : ℕ) (candidates queue : List (Neighbor D V)) : Type 0 where
    pub dropped : List (Neighbor D V)
    pub descending : IsDescending (dropped ++ queue)
    pub perm : Perm (dropped ++ queue) candidates
    pub count : (dropped ≡ []) × (length queue ≤ most) ⊎ (length queue ≡ most)

  -- The candidates in the order in which the search meets them.
  unfoldable pub offer_all :
      ℕ → List (Neighbor D V) → List (Neighbor D V) → Outcome (List (Neighbor D V))
  offer_all most [] queue = ok queue
  offer_all most (e ∷ es) queue = offer most e queue >>= offer_all most es

  emplace-perm :
      (e : Neighbor D V) (es : List (Neighbor D V)) → Perm (emplace_neighbor e es) (e ∷ es)
  unfolding emplace_neighbor
  emplace-perm e [] = Perm.refl _
  emplace-perm e (f ∷ es) = elim (Bool-cases (d.lt e.distance f.distance)) [
    | inl h ↦
        rw (h, if◌then◌else◌) (Perm.trans (Perm.cons f (emplace-perm e es)) (Perm.swap e f es))
    | inr h ↦ rw (h, if◌then◌else◌) (Perm.refl _)
  ]

  length-emplace :
      (e : Neighbor D V) (es : List (Neighbor D V))
      → length (emplace_neighbor e es) ≡ suc (length es)
  unfolding emplace_neighbor
  length-emplace e [] = refl
  length-emplace e (f ∷ es) = ground (arith, length-emplace e es)

  All-emplace :
      (P : Neighbor D V → Type 0) (e : Neighbor D V) (es : List (Neighbor D V))
      → P e
      → All P es
      → All P (emplace_neighbor e es)
  unfolding emplace_neighbor
  All-emplace P e [] p u = (p, tt)
  All-emplace P e (f ∷ es) p (q, u) = elim (Bool-cases (d.lt e.distance f.distance)) [
    | inl h ↦ rw (h, if◌then◌else◌) (q, All-emplace P e es p u)
    | inr h ↦ rw (h, if◌then◌else◌) (p, (q, u))
  ]

  -- Where the next entry is not farther, the rest stays in its place.
  emplace-append_left :
      (e top : Neighbor D V) (es rest : List (Neighbor D V))
      → d.lt e.distance top.distance ≡ false
      → emplace_neighbor e (es ++ top ∷ rest) ≡ emplace_neighbor e es ++ top ∷ rest
  unfolding emplace_neighbor
  emplace-append_left e top [] rest h = rw (h, if◌then◌else◌) refl
  emplace-append_left e top (f ∷ es) rest h = elim (Bool-cases (d.lt e.distance f.distance)) [
    | inl k ↦ rw (k, if◌then◌else◌) (ap (λ xs. f ∷ xs) (emplace-append_left e top es rest h))
    | inr k ↦ rw (k, if◌then◌else◌) refl
  ]

  emplace-append_right :
      (e : Neighbor D V) (es rest : List (Neighbor D V))
      → All (λ f. d.lt e.distance f.distance ≡ true) es
      → emplace_neighbor e (es ++ rest) ≡ es ++ emplace_neighbor e rest
  unfolding emplace_neighbor
  emplace-append_right e [] rest u = refl
  emplace-append_right e (f ∷ es) rest (h, u) =
      rw (h, if◌then◌else◌) (ap (λ xs. f ∷ xs) (emplace-append_right e es rest u))

module _ {D : Type 0} ⦃d : Double D⦄ (o : IsOrdered D) where
  asymm : (x y : D) → d.lt x y ≡ true → d.lt y x ≡ false
  asymm x y h = elim (Bool-cases (d.lt y x)) [
    | inl k ↦ cc (o.lt_trans x y x h k, o.lt_irrefl x)
    | inr k ↦ k
  ]

  -- below the one and not above the other
  lt_of_not : (x y z : D) → d.lt x z ≡ true → d.lt y z ≡ false → d.lt x y ≡ true
  lt_of_not x y z h k = elim (Bool-cases (d.lt x y)) [
    | inl q ↦ q
    | inr q ↦ cc (o.not_lt_trans x y z q k, h)
  ]

module _ {D V : Type 0} ⦃d : Double D⦄ (o : IsOrdered D) where
  below-All :
      (e f : D) (es : List (Neighbor D V))
      → d.lt e f ≡ false
      → All (λ g. d.lt f g.distance ≡ false) es
      → All (λ g. d.lt e g.distance ≡ false) es
  below-All e f [] h u = tt
  below-All e f (g ∷ es) h (p, u) = (o.not_lt_trans e f g.distance h p, below-All e f es h u)

  emplace-IsDescending :
      (e : Neighbor D V) (es : List (Neighbor D V))
      → IsDescending es
      → IsDescending (emplace_neighbor e es)
  unfolding emplace_neighbor
  emplace-IsDescending e [] u = (tt, tt)
  emplace-IsDescending e (f ∷ es) (p, u) = elim (Bool-cases (d.lt e.distance f.distance)) [
    | inl h ↦
        rw (h, if◌then◌else◌)
          (
            All-emplace (λ g. d.lt f.distance g.distance ≡ false) e es
                (asymm o e.distance f.distance h) p,
            emplace-IsDescending e es u,
          )
    | inr h ↦ rw (h, if◌then◌else◌) ((h, below-All e.distance f.distance es h p), (p, u))
  ]

  All-middle :
      (P : Neighbor D V → Type 0) (top : Neighbor D V) (es rest : List (Neighbor D V))
      → All P (es ++ top ∷ rest)
      → P top
  All-middle P top [] rest (p, u) = p
  All-middle P top (f ∷ es) rest (p, u) = All-middle P top es rest u

  Descending-lt :
      (e top : Neighbor D V) (es rest : List (Neighbor D V))
      → d.lt e.distance top.distance ≡ true
      → IsDescending (es ++ top ∷ rest)
      → All (λ f. d.lt e.distance f.distance ≡ true) (es ++ top ∷ [])
  Descending-lt e top [] rest h u = (h, tt)
  Descending-lt e top (f ∷ es) rest h (p, u) = (
    lt_of_not o e.distance f.distance top.distance h
        (All-middle (λ g. d.lt f.distance g.distance ≡ false) top es rest p),
    Descending-lt e top es rest h u,
  )

  -- A candidate more.
  offer-IsNearest :
      (most : ℕ) (e : Neighbor D V) (candidates queue : List (Neighbor D V))
      → 0 < most
      → IsNearest most candidates queue
      → Succeeds (IsNearest most (e ∷ candidates)) (offer most e queue)
  unfolding offer
  offer-IsNearest most e candidates queue h v = elim (Bool-cases (length queue == most)) [
    | inr k ↦ rw (k, if◌then◌else◌) (with_room k)
    | inl k ↦ rw (k, if◌then◌else◌) (full queue k v)
  ]
    where
      with_room :
          (length queue == most) ≡ false
          → IsNearest most (e ∷ candidates) (emplace_neighbor e queue)
      with_room k = elim v.count [
        | inr c ↦ ground (arith, c)
        | inl c ↦ record {
          dropped = [];
          descending =
              emplace-IsDescending e queue
                (subst (λ ds. IsDescending (ds ++ queue)) c.0 v.descending);
          perm =
              Perm.trans (emplace-perm e queue)
                (Perm.cons e (subst (λ ds. Perm (ds ++ queue) candidates) c.0 v.perm));
          count = inl (refl, ground (arith, length-emplace e queue, c.1));
        }
      ]

      inserted :
          (ds queue queue' : List (Neighbor D V)) (u : IsNearest most candidates queue)
          → ds ++ queue' ≡ emplace_neighbor e (u.dropped ++ queue)
          → length queue' ≡ most
          → IsNearest most (e ∷ candidates) queue'
      inserted ds queue queue' u q c = record {
        dropped = ds;
        descending =
            subst IsDescending (sym q) (emplace-IsDescending e (u.dropped ++ queue) u.descending);
        perm =
            subst (λ es. Perm es (e ∷ candidates)) (sym q)
              (Perm.trans (emplace-perm e (u.dropped ++ queue)) (Perm.cons e u.perm));
        count = inr c;
      }

      full :
          (queue : List (Neighbor D V))
          → (length queue == most) ≡ true
          → IsNearest most candidates queue
          → Succeeds (IsNearest most (e ∷ candidates)) (elim queue [
            | [] ↦ fail bad_index
            | top ∷ rest ↦
                ok (if d.lt e.distance top.distance then emplace_neighbor e rest else top ∷ rest)
          ])
      full [] k u = ground (arith, k, h)
      full (top ∷ rest) k u =
          let size : suc (length rest) ≡ most = ground (arith, k) in
          elim (Bool-cases (d.lt e.distance top.distance)) [
            | inl q ↦
                rw (q, if◌then◌else◌)
                  (inserted (u.dropped ++ top ∷ []) (top ∷ rest) (emplace_neighbor e rest) u
                    (sym (
                        emplace-append_right e (u.dropped ++ top ∷ []) rest
                          (Descending-lt e top u.dropped rest q u.descending))
                      ∙ ap (emplace_neighbor e) (append_assoc u.dropped (top ∷ []) rest))
                    (length-emplace e rest ∙ size))
            | inr q ↦
                rw (q, if◌then◌else◌)
                  (inserted (emplace_neighbor e u.dropped) (top ∷ rest) (top ∷ rest) u
                    (sym (emplace-append_left e top u.dropped rest q)) size)
          ]

  offer_further :
      (most : ℕ) (es candidates queue : List (Neighbor D V))
      → 0 < most
      → IsNearest most candidates queue
      → Succeeds
          (λ queue'.
            (cs : List (Neighbor D V)) × Perm cs (es ++ candidates) × IsNearest most cs queue')
          (offer_all most es queue)
  unfolding offer_all
  offer_further most [] candidates queue h v = (candidates, Perm.refl _, v)
  offer_further most (e ∷ es) candidates queue h v =
      Succeeds->>= (IsNearest most (e ∷ candidates)) _ (offer most e queue) (offer_all most es)
        (offer-IsNearest most e candidates queue h v)
        λ queue' v'.
          Succeeds-map _ _ (offer_all most es queue')
            (offer_further most es (e ∷ candidates) queue' h v')
            λ queue'' (cs, p, w). (cs, Perm.trans p (perm_middle es candidates), w)

  -- From an empty queue the candidates that are kept are the nearest of all.
  pub offer_all-IsNearest :
      (most : ℕ) (es : List (Neighbor D V))
      → 0 < most
      → Succeeds (IsNearest most es) (offer_all most es [])
  offer_all-IsNearest most es h =
      let empty : IsNearest most [] [] = record {
        dropped = [];
        descending = tt;
        perm = Perm.refl [];
        count = inl (refl, omega arith);
      } in
      Succeeds-map _ (IsNearest most es) (offer_all most es [])
        (offer_further most es [] [] h empty)
        λ queue (cs, p, w). record {
          dropped = w.dropped;
          descending = w.descending;
          perm = Perm.trans w.perm (subst (λ xs. Perm cs xs) (append-nil es) p);
          count = w.count;
        }
