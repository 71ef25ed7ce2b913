-- ===== src/Intel/Mitre/Rules.antt =====
-- ml/mirage/intel/mitre.py: what of a session the rules ask for, described without the calls, and
-- that the calls are the rules that apply.
use mathlib.Core.List.{Memᴰ}
use mathlib.Core.List.Memᴰ
use mirage_core.Shared.{
  ◌<◌, ◌≡◌, ◌≢◌, refl, sym, ap, ◌∙◌, ◌↔◌, ◌⊎◌, inl, inr, String, true, Option, some, List, [], ◌∷◌,
  ◌++◌, map, keep, mem-keep, length, string_eq, ==_iff, arith, Bool-cases,
}
use mirage_core.Shared.Flat.{keep-mem}
use mirage_core.Shared.Dict.{lookup}
use mirage_core.Intel.{AuthAttempt, BaitEvent, ProductionSession, join_lines}
use mirage_core.Intel.Mitre.Users.{user}
use mirage_core.Intel.Mitre.{
  Technique, TechniqueHit, execution_shell, brute_force, password_guessing, password_spraying,
  valid_accounts, exfil_c2, command_rules, bait_type_technique, is_password, any_success,
}

-- An attempt with a password and this user name is among the attempts.
abbrev pub Tried : List AuthAttempt → String → Type 0
Tried attempts name =
    (a : AuthAttempt) × Memᴰ a attempts
    × ((a.method ≡ "password") ⊎ (a.method ≡ "keyboard-interactive"))
    × (a.username ≡ name)

-- The rules: a technique, and what of the session it asks for.
pub data Applies (search : String → String → Option String) (prod : ProductionSession)
    : Technique → Type 0 where
  shell : (line : String) → Memᴰ line prod.raw_commands → Applies search prod execution_shell
  command :
      (pattern text : String) (t : Technique)
      → Memᴰ (pattern, t) command_rules
      → search pattern (join_lines prod.raw_commands) ≡ some text
      → Applies search prod t
  tried : (name : String) → Tried prod.auth_attempts name → Applies search prod brute_force
  guessed : (name : String) → Tried prod.auth_attempts name → Applies search prod password_guessing
  sprayed :
      (x y z : String)
      → Tried prod.auth_attempts x
      → Tried prod.auth_attempts y
      → Tried prod.auth_attempts z
      → x ≢ y
      → x ≢ z
      → y ≢ z
      → Applies search prod password_spraying
  let_in :
      (a : AuthAttempt)
      → Memᴰ a prod.auth_attempts
      → a.success ≡ true
      → Applies search prod valid_accounts
  baited :
      (b : BaitEvent) (t : Technique)
      → Memᴰ b prod.bait_events
      → lookup b.bait_type bait_type_technique ≡ some t
      → Applies search prod t
  stolen :
      (b : BaitEvent)
      → Memᴰ b prod.bait_events
      → b.access_type ≡ "exfil_attempt"
      → Applies search prod exfil_c2

-- A call of `add` for this technique is among the calls.
abbrev pub Called : List TechniqueHit → Technique → Type 0
Called hs t = (h : TechniqueHit) × Memᴰ h hs × (h.technique ≡ t)

pub Called-left : (xs ys : List TechniqueHit) (t : Technique) → Called xs t → Called (xs ++ ys) t
Called-left xs ys t (h, m, e) = (h, Memᴰ.append_left ys m, e)

pub Called-right : (xs ys : List TechniqueHit) (t : Technique) → Called ys t → Called (xs ++ ys) t
Called-right xs ys t (h, m, e) = (h, Memᴰ.append_right xs m, e)

is_password_iff :
    (a : AuthAttempt)
    → (is_password a ≡ true) ↔ ((a.method ≡ "password") ⊎ (a.method ≡ "keyboard-interactive"))
unfolding is_password
is_password_iff a =
    ground (arith, ==_iff a.method "password", ==_iff a.method "keyboard-interactive")

abbrev pub passwords : List AuthAttempt → List AuthAttempt
passwords = keep is_password

pub Tried-passwords :
    (attempts : List AuthAttempt) (name : String)
    → Tried attempts name
    → (a : AuthAttempt) × Memᴰ a (passwords attempts) × (a.username ≡ name)
Tried-passwords attempts name (a, m, method, e) =
    (a, keep-mem is_password m ((is_password_iff a).1 method), e)

pub passwords-Tried :
    (attempts : List AuthAttempt) (a : AuthAttempt)
    → Memᴰ a (passwords attempts)
    → Tried attempts a.username
passwords-Tried attempts a m =
    let (m', is) = mem-keep is_password attempts m in (a, m', (is_password_iff a).0 is, refl)

pub users-Tried :
    (attempts : List AuthAttempt) (name : String)
    → Memᴰ name (map user (passwords attempts))
    → Tried attempts name
users-Tried attempts name m =
    let (a, m', e) = Memᴰ.of_map user (passwords attempts) m in
    rw (← e) (passwords-Tried attempts a m')

pub Tried-users :
    (attempts : List AuthAttempt) (name : String)
    → Tried attempts name
    → Memᴰ name (map user (passwords attempts))
Tried-users attempts name h =
    let (a, m, e) = Tried-passwords attempts name h in rw (← e) (Memᴰ.map user m)

pub length-mem : (xs : List AuthAttempt) → 0 < length xs → (a : AuthAttempt) × Memᴰ a xs
length-mem [] h = absurd (omega arith)
length-mem (a ∷ xs) h = (a, Memᴰ.head refl)

pub mem-length : (a : AuthAttempt) (xs : List AuthAttempt) → Memᴰ a xs → 0 < length xs
mem-length a [] m = elim m [ ]
mem-length a (b ∷ xs) m = omega arith

pub any_success-mem :
    (attempts : List AuthAttempt)
    → any_success attempts ≡ true
    → (a : AuthAttempt) × Memᴰ a attempts × (a.success ≡ true)
unfolding any_success
any_success-mem [] h = absurd (ground arith)
any_success-mem (a ∷ attempts) h = elim (Bool-cases a.success) [
  | inl here ↦ (a, Memᴰ.head refl, here)
  | inr other ↦ let (b, m, e) = any_success-mem attempts (ground arith) in (b, Memᴰ.tail m, e)
]

pub mem-any_success :
    (a : AuthAttempt) (attempts : List AuthAttempt)
    → Memᴰ a attempts
    → a.success ≡ true
    → any_success attempts ≡ true
unfolding any_success
mem-any_success a [] m e = elim m [ ]
mem-any_success a (b ∷ attempts) m e = elim (Memᴰ.cases_cons m) [
  | inl same ↦
      let here : b.success ≡ true = ap (λ (x : AuthAttempt). x.success) (sym same) ∙ e in
      ground arith
  | inr later ↦ let rest = mem-any_success a attempts later e in ground arith
]
