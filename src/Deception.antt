-- ===== src/Deception.antt =====
-- ml/mirage/deception/: the actions, the command categories and the effects of an action. Env is
-- environment.py with the loop of `evaluate_policy`, Live is live.py, Policy is policy.py.
pub mod Env
pub mod Live
pub mod Policy
mod Witnesses
use mirage_core.Shared.{
  ℕ, ◌≡◌, refl, sym, ap, ◌∙◌, Bool, true, false, Option, none, some, String, List, [], ◌∷◌,
  get_elem?, ltb, nat_beq, nat_beq_iff, Eq,
}

pub data Category : Type 0 where
  recon : Category
  download : Category
  read_sensitive : Category
  escalate : Category
  exfil : Category

-- `_CAT_INDEX`
abbrev pub cat_index : Category → ℕ
cat_index recon = 0
cat_index download = 1
cat_index read_sensitive = 2
cat_index escalate = 3
cat_index exfil = 4

-- `COMMAND_CATEGORIES`
abbrev pub command_categories : List Category
command_categories = recon ∷ download ∷ read_sensitive ∷ escalate ∷ exfil ∷ []

-- `COMMAND_CATEGORIES[i]`; an index past the end is `none`.
abbrev pub category_at : ℕ → Option Category
category_at i = get_elem? command_categories i

pub category_at-cat_index : (c : Category) → category_at (cat_index c) ≡ some c
category_at-cat_index recon = refl
category_at-cat_index download = refl
category_at-cat_index read_sensitive = refl
category_at-cat_index escalate = refl
category_at-cat_index exfil = refl

pub some_injective : {c d : Category} → some c ≡ some d → c ≡ d
some_injective e = cc

instance abbrev pub category_eq : Eq Category
category_eq = record {
  is_eq = λ c d. nat_beq (cat_index c) (cat_index d);
  is_eq_iff = λ c d. (
    λ h. some_injective (
        sym (category_at-cat_index c)
        ∙ (ap category_at ((nat_beq_iff (cat_index c) (cat_index d)).0 h)
            ∙ category_at-cat_index d)),
    λ e. (nat_beq_iff (cat_index c) (cat_index d)).1 (ap cat_index e),
  );
}

-- `_SENSITIVE`
abbrev pub is_sensitive : Category → Bool
is_sensitive recon = false
is_sensitive download = false
is_sensitive read_sensitive = true
is_sensitive escalate = true
is_sensitive exfil = true

pub data DeceptionAction : Type 0 where
  minimal : DeceptionAction
  enrich : DeceptionAction
  surface_bait : DeceptionAction
  stall : DeceptionAction
  fake_success : DeceptionAction

-- `int(action)`
abbrev pub action_index : DeceptionAction → ℕ
action_index minimal = 0
action_index enrich = 1
action_index surface_bait = 2
action_index stall = 3
action_index fake_success = 4

abbrev pub actions : List DeceptionAction
actions = minimal ∷ enrich ∷ surface_bait ∷ stall ∷ fake_success ∷ []

-- `DeceptionAction(i)`, whose ValueError is `none`
abbrev pub action_at : ℕ → Option DeceptionAction
action_at i = get_elem? actions i

-- A decimal literal, in hundredths.
pub data Hundredths : Type 0 where
  plus : ℕ → Hundredths
  minus : ℕ → Hundredths

abbrev pub is_positive : Hundredths → Bool
is_positive (plus n) = ltb 0 n
is_positive (minus n) = false

pub record Effects : Type 0 where
  pub engagement : Hundredths
  pub suspicion : Hundredths
  pub bait_gain : Hundredths
  pub capture_bonus : Hundredths

abbrev effects_of : Hundredths → Hundredths → Hundredths → Hundredths → Effects
effects_of e s b c = record { engagement = e; suspicion = s; bait_gain = b; capture_bonus = c }

abbrev pub nothing : Hundredths
nothing = plus 0

enrich_effects : Category → Effects
enrich_effects recon = effects_of (plus 55) nothing nothing (plus 30)
enrich_effects download = effects_of (plus 55) nothing nothing (plus 30)
enrich_effects _ = effects_of (plus 5) (plus 10) nothing nothing

stall_effects : Category → Effects
stall_effects escalate = effects_of (plus 10) (minus 10) nothing nothing
stall_effects _ = effects_of (minus 45) (plus 35) nothing nothing

fake_success_effects : Category → Effects
fake_success_effects download = effects_of (plus 50) nothing nothing (plus 50)
fake_success_effects escalate = effects_of (plus 50) nothing nothing (plus 50)
fake_success_effects _ = effects_of nothing (plus 35) nothing nothing

bait_effects : Bool → Effects
bait_effects true = effects_of (plus 45) (minus 5) (plus 300) nothing
bait_effects false = effects_of nothing (plus 60) nothing nothing

-- `_effects`
unfoldable pub effects : Category → DeceptionAction → Effects
unfolding bait_effects enrich_effects stall_effects fake_success_effects
effects c minimal = effects_of nothing (minus 10) nothing nothing
effects c enrich = enrich_effects c
effects c surface_bait = bait_effects (is_sensitive c)
effects c stall = stall_effects c
effects c fake_success = fake_success_effects c
