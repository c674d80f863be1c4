-- ===== src/Pairing/Expiry.antt =====
-- What the sweeps of the pairing service leave of the records that count.
use asterim.Prelude.{
  ℕ, String, some, List, [], ◌∷◌, ◌≡◌, inl, inr, refl, sym, ap, ◌∙◌, ltb, str_eq_refl, str_eq-cases,
  Bool-cases, Option-cases, length, Map, get, keys, get-delete,
}
use asterim.Pairing.{
  PairingOptions, AttemptRecord, is_expired, live_record, read_record, prune_keys, prune_if_crowded,
}

read_record-live :
    (o : PairingOptions) (now : ℕ) (k c : String) (m : Map AttemptRecord)
    → live_record o now (get c (read_record o now k m).1) ≡ live_record o now (get c m)
unfolding read_record
read_record-live o now k c m = elim (Option-cases (get k m)) [
  | inl e ↦ rw e refl
  | inr (r, e) ↦ rw e (elim (Bool-cases (is_expired o now r)) [
    | inr counts ↦ rw counts refl
    | inl stale ↦
        rw (stale, get-delete c k m)
          (elim (str_eq-cases k c) [
            | inr other ↦ rw other refl
            | inl same ↦
                let found : get c m ≡ some r = ap (λ x. get x m) (sym same) ∙ e in
                rw (same, str_eq_refl c, found, stale) refl
          ])
  ])
]

prune_keys-live :
    (o : PairingOptions) (now : ℕ) (ks : List String) (c : String) (m : Map AttemptRecord)
    → live_record o now (get c (prune_keys o now ks m)) ≡ live_record o now (get c m)
unfolding prune_keys
prune_keys-live o now [] c m = refl
prune_keys-live o now (k ∷ ks) c m =
    prune_keys-live o now ks c (read_record o now k m).1 ∙ read_record-live o now k c m

pub prune_if_crowded-live :
    (o : PairingOptions) (now : ℕ) (c : String) (m : Map AttemptRecord)
    → live_record o now (get c (prune_if_crowded o now m)) ≡ live_record o now (get c m)
unfolding prune_if_crowded
prune_if_crowded-live o now c m = elim (Bool-cases (ltb (length m) 1024)) [
  | inl e ↦ rw e refl
  | inr e ↦ rw e (prune_keys-live o now (keys m) c m)
]
