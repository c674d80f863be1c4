-- ===== src/Pipeline/Cycle/Closed.antt =====
-- The invariant of the depth-first search: a finished step has all its dependencies finished before
-- it, and the path that closes is a cycle.
use asterim.Prelude.{
  suc, ◌≡◌, refl, sym, subst, ◌⊎◌, inl, inr, String, true, false, none, some, List, [], ◌∷◌, str_eq,
  str_eq_refl, str_eq_iff, str_eq-cases, get_elem?, take, any, includes, Map, get, put, get-put,
}
use asterim.Pipeline.Graph.{PipelineStep}
use asterim.Pipeline.Cycle.{Mark, visiting, finished, has_step, Frame, frame_is}
use asterim.Pipeline.Cycle.Found.{
  or_right, or_either, take-suc, take_all, includes-get_elem?, dependencies, Edge, ChainedOn,
  Chained,
}

module _ (steps : List PipelineStep) where
  -- The finished steps, the last one first: each has its dependencies behind it.
  abbrev pub IsClosed : List String → Type 0
  IsClosed [] = Unit
  IsClosed (a ∷ ids) = ((d : String) → Edge steps a d → includes d ids ≡ true) × IsClosed ids

  -- The dependencies of `f` that have been walked are finished, or the one on top of it.
  abbrev pub Walked : List String → (String → Type 0) → Frame → Type 0
  Walked ids Above f =
      (d : String)
      → includes d (take f.next (dependencies steps f.id)) ≡ true
      → has_step d steps ≡ true
      → (includes d ids ≡ true) ⊎ Above d

  abbrev pub WalkedOn : List String → String → List Frame → Type 0
  WalkedOn ids x [] = Unit
  WalkedOn ids x (g ∷ below) = Walked ids (λ d. d ≡ x) g × WalkedOn ids g.id below

  abbrev pub AllWalked : List String → List Frame → Type 0
  AllWalked ids [] = Unit
  AllWalked ids (f ∷ below) = Walked ids (λ d. ⊥) f × WalkedOn ids f.id below

  pub record Inv (ids : List String) (marks : Map Mark) (stack : List Frame) : Type 0 where
    pub chained : Chained steps stack
    pub walked : AllWalked ids stack
    pub busy : (id : String) → get id marks ≡ some visiting → any (frame_is id) stack ≡ true
    pub known : (id : String) → get id marks ≡ some finished → includes id ids ≡ true
    pub ordered : IsClosed ids

  WalkedOn-grow :
      (x y : String) (ids : List String) (below : List Frame)
      → WalkedOn ids y below
      → WalkedOn (x ∷ ids) y below
  WalkedOn-grow x y ids [] h = tt
  WalkedOn-grow x y ids (g ∷ below) (first, h) = (
    λ d there is_step. elim (first d there is_step) [
      | inl old ↦ inl (or_right (str_eq d x) old)
      | inr top ↦ inr top
    ],
    WalkedOn-grow x g.id ids below h,
  )

  -- The step on top has been popped and is finished.
  AllWalked-pop :
      (x : String) (ids : List String) (below : List Frame)
      → WalkedOn ids x below
      → AllWalked (x ∷ ids) below
  AllWalked-pop x ids [] h = tt
  AllWalked-pop x ids (g ∷ below) (first, h) = (
    λ d there is_step. elim (first d there is_step) [
      | inl old ↦ inl (or_right (str_eq d x) old)
      | inr top ↦ inl (rw (top, str_eq_refl x) refl)
    ],
    WalkedOn-grow x g.id ids below h,
  )

  Chained-pop : (x : String) (below : List Frame) → ChainedOn steps x below → Chained steps below
  Chained-pop x [] c = tt
  Chained-pop x (g ∷ below) (e, c) = c

  pub mark_cases :
      (id k : String) (m n : Mark) (marks : Map Mark)
      → get k (put id m marks) ≡ some n
      → ((k ≡ id) × (m ≡ n)) ⊎ ((str_eq id k ≡ false) × (get k marks ≡ some n))
  mark_cases id k m n marks h = elim (str_eq-cases id k) [
    | inr other ↦ inr (other, rw (get-put k id m marks, other) at h)
    | inl same ↦
        let hit : str_eq id k ≡ true = (str_eq_iff id k).1 same in
        inl (sym same, (let e : some m ≡ some n = rw (get-put k id m marks, hit) at h in cc))
  ]

  pub Inv-pop :
      (ids : List String) (marks : Map Mark) (f : Frame) (below : List Frame)
      → get_elem? (dependencies steps f.id) f.next ≡ none
      → Inv ids marks (f ∷ below)
      → Inv (f.id ∷ ids) (put f.id finished marks) below
  Inv-pop ids marks f below all_walked h = record {
    chained = Chained-pop f.id below h.chained;
    walked = AllWalked-pop f.id ids below h.walked.1;
    busy = λ id e. elim (mark_cases f.id id finished visiting marks e) [
      | inl (same, bad) ↦ absurd (cc)
      | inr (other, old) ↦ elim (or_either (str_eq f.id id) _ (h.busy id old)) [
        | inl top ↦ absurd (cc)
        | inr deeper ↦ deeper
      ]
    ];
    known = λ id e. elim (mark_cases f.id id finished finished marks e) [
      | inl (same, ok) ↦ rw (same, str_eq_refl f.id) refl
      | inr (other, old) ↦ or_right (str_eq id f.id) (h.known id old)
    ];
    ordered = (
      λ d edge.
          elim (h.walked.0 d (take_all (dependencies steps f.id) f.next d all_walked edge.0)
            edge.1) [ inl old ↦ old | inr none_above ↦ absurd none_above ],
      h.ordered,
    );
  }

  module _ (ids : List String) (marks : Map Mark) (f : Frame) (below : List Frame) (id : String)
      (there : get_elem? (dependencies steps f.id) f.next ≡ some id)
      (h : Inv ids marks (f ∷ below)) where
    abbrev pub onward : Frame
    onward = record f { next = suc f.next }

    -- The dependency that is walked is finished, or unknown.
    pub Inv-walk :
        ((has_step id steps ≡ true) → includes id ids ≡ true) → Inv ids marks (onward ∷ below)
    Inv-walk settled = record {
      chained = h.chained;
      walked = (
        λ d walked is_step. elim (take-suc (dependencies steps f.id) f.next d there walked) [
          | inl before ↦ h.walked.0 d before is_step
          | inr last ↦ inl (
              subst (λ k. includes k ids ≡ true) (sym last)
                (settled (subst (λ k. has_step k steps ≡ true) last is_step)))
        ],
        h.walked.1,
      );
      busy = h.busy;
      known = h.known;
      ordered = h.ordered;
    }

    pub Inv-push :
        has_step id steps ≡ true
        → Inv ids (put id visiting marks) (record { id = id; next = 0 } ∷ onward ∷ below)
    Inv-push is_step = record {
      chained = ((includes-get_elem? (dependencies steps f.id) f.next there, is_step), h.chained);
      walked = (
        λ d none_walked known. absurd (cc),
        (
          λ d walked known. elim (take-suc (dependencies steps f.id) f.next d there walked) [
            | inr last ↦ inr last
            | inl before ↦ elim (h.walked.0 d before known) [
              | inl old ↦ inl old
              | inr none_above ↦ absurd none_above
            ]
          ],
          h.walked.1,
        ),
      );
      busy = λ k e. elim (mark_cases id k visiting visiting marks e) [
        | inl (same, ok) ↦ rw (same, str_eq_refl id) refl
        | inr (other, old) ↦ or_right (str_eq id k) (h.busy k old)
      ];
      known = λ k e. elim (mark_cases id k visiting finished marks e) [
        | inl (same, bad) ↦ absurd (cc)
        | inr (other, old) ↦ h.known k old
      ];
      ordered = h.ordered;
    }
