-- ===== src/Approvals/Tightens.antt =====
-- An analysis that is at least as strict as another, and the steps of the command analysis.
use asterim.Prelude.{
  ◌≤◌, ◌≡◌, refl, sym, ap, ◌∙◌, arith, inl, inr, String, Bool, true, false, not, ◌||◌, ◌&&◌, List,
  [], ◌++◌, append-nil, append_assoc, Bool-cases,
}
use asterim.Approvals.Security.{
  Risk, low, medium, high, critical, rank, Analysis, PolicyVerdict, is_critical, is_low,
  at_least_high, contains, check_high, check_traversal, check_medium, apply_policy,
}

unfoldable pub implies : Bool → Bool → Bool
implies a b = not a || b

pub implies_refl : (a : Bool) → implies a a ≡ true
unfolding implies
implies_refl true = refl
implies_refl false = refl

pub implies_anyway : (a : Bool) → implies a true ≡ true
unfolding implies
implies_anyway true = refl
implies_anyway false = refl

pub implies_trans : (a b c : Bool) → implies a b ≡ true → implies b c ≡ true → implies a c ≡ true
unfolding implies
implies_trans true true c h k = k
implies_trans true false c h k = absurd (cc)
implies_trans false b c h k = refl

pub implies_apply : (a b : Bool) → implies a b ≡ true → a ≡ true → b ≡ true
unfolding implies
implies_apply true b h k = h
implies_apply false b h k = absurd (cc)

-- `b` is at least as strict as `a`, and says at least what it says.
pub data Tightens (a b : Analysis) : Type 0 where
  tightens :
      rank a.risk_level ≤ rank b.risk_level
      → implies a.is_path_traversal b.is_path_traversal ≡ true
      → implies a.requires_explicit_human_approval b.requires_explicit_human_approval ≡ true
      → (extra : List String) → b.warnings ≡ a.warnings ++ extra
      → Tightens a b

pub same_analysis : (a : Analysis) → Tightens a a
same_analysis a =
    tightens (omega arith) (implies_refl _) (implies_refl _) [] (sym (append-nil a.warnings))

pub Tightens-trans : (a b c : Analysis) → Tightens a b → Tightens b c → Tightens a c
Tightens-trans a b c (tightens r t h xs e) (tightens r2 t2 h2 ys e2) =
    tightens (omega arith) (implies_trans _ _ _ t t2) (implies_trans _ _ _ h h2) (xs ++ ys)
      (e2 ∙ (ap (λ l. l ++ ys) e ∙ append_assoc a.warnings xs ys))

rank-le_critical : (r : Risk) → rank r ≤ 3
rank-le_critical low = omega arith
rank-le_critical medium = omega arith
rank-le_critical high = omega arith
rank-le_critical critical = omega arith

high-raises : (r : Risk) → is_critical r ≡ false → rank r ≤ 2
high-raises low h = omega arith
high-raises medium h = omega arith
high-raises high h = omega arith
high-raises critical h = absurd (cc)

pub rank-at_least_high :
    (r : Risk) → (rank r ≤ rank (at_least_high r)) × (2 ≤ rank (at_least_high r))
rank-at_least_high low = (omega arith, omega arith)
rank-at_least_high medium = (omega arith, omega arith)
rank-at_least_high high = (omega arith, omega arith)
rank-at_least_high critical = (omega arith, omega arith)

low_rank : (r : Risk) → is_low r ≡ true → rank r ≤ 1
low_rank low h = omega arith
low_rank medium h = absurd (cc)
low_rank high h = absurd (cc)
low_rank critical h = absurd (cc)

pub check_high-Tightens : (cmd : String) (a : Analysis) → Tightens a (check_high cmd a)
unfolding check_high
check_high-Tightens cmd a = elim (Bool-cases (is_critical a.risk_level)) [
  | inl e ↦ rw e (same_analysis a)
  | inr e ↦
      let small : rank a.risk_level ≤ 2 = high-raises a.risk_level e in
      rw e
        (elim (Bool-cases (
          contains cmd "git reset --hard"
          || contains cmd "git push --force"
          || contains cmd "git push -f")) [
            | inl g ↦ rw g (tightens small (implies_refl _) (implies_anyway _) _ refl)
            | inr g ↦ rw g (elim (Bool-cases (contains cmd "rm -rf" || contains cmd "rm -r")) [
              | inl r ↦ rw r (tightens small (implies_refl _) (implies_refl _) _ refl)
              | inr r ↦
                  rw r
                    (elim (Bool-cases (contains cmd "drop database" || contains cmd "drop table")) [
                      | inl d ↦ rw d (tightens small (implies_refl _) (implies_anyway _) _ refl)
                      | inr d ↦ rw d (same_analysis a)
                    ])
            ])
          ])
]

pub check_traversal-Tightens : (cmd : String) (a : Analysis) → Tightens a (check_traversal cmd a)
unfolding check_traversal
check_traversal-Tightens cmd a =
    elim (Bool-cases (contains cmd "../.." || contains cmd "/etc/" || contains cmd "/var/root")) [
      | inl e ↦ rw e (
          tightens (rank-at_least_high a.risk_level).0 (implies_anyway _) (implies_anyway _) _ refl)
      | inr e ↦ rw e (same_analysis a)
    ]

pub check_medium-Tightens : (cmd : String) (a : Analysis) → Tightens a (check_medium cmd a)
unfolding check_medium
check_medium-Tightens cmd a =
    let installs =
      contains cmd "npm install"
      || contains cmd "pnpm add"
      || contains cmd "pip install"
      || contains cmd "cargo add" in
    elim (Bool-cases (is_low a.risk_level && installs)) [
      | inl e ↦ rw e (
          tightens (low_rank a.risk_level (ground arith)) (implies_refl _) (implies_refl _) []
            (sym (append-nil a.warnings)))
      | inr e ↦ rw e (same_analysis a)
    ]

pub apply_policy-Tightens : (v : PolicyVerdict) (a : Analysis) → Tightens a (apply_policy v a)
unfolding apply_policy
apply_policy-Tightens v a = elim (Bool-cases v.allowed) [
  | inr e ↦
      rw e (tightens (rank-le_critical a.risk_level) (implies_refl _) (implies_anyway _) _ refl)
  | inl e ↦ rw e (elim (Bool-cases (v.is_managed && v.requires_approval a.risk_level)) [
    | inl m ↦ rw m (
        tightens (omega arith) (implies_refl _) (implies_anyway _) [] (sym (append-nil a.warnings)))
    | inr m ↦ rw m (same_analysis a)
  ])
]
