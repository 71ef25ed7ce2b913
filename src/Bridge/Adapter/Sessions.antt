-- ===== src/Bridge/Adapter/Sessions.antt =====
-- bridge/schema_adapter.py: what `core_session_to_ml` takes over of a document.
use mathlib.Core.List.{Memᴰ}
use mirage_core.Shared.{
  ℕ, ◌-◌, ◌≡◌, ◌≢◌, refl, sym, ap, ◌∙◌, subst, ◌↔◌, inl, inr, false, Option, none, some,
  if◌then◌else◌, ◌==◌, string_eq, ==_iff, Bool-cases,
}
use mirage_core.Shared.Sorting.{sort_by, mem-sort_by, sort_by-mem}
use mirage_core.Shared.Flat.{mem-filter_some, filter_some-mem}
use mirage_core.Bridge.Adapter.{
  Codec, CoreCommand, CoreSession, MlCommand, MlSession, text_or, decode_raw, adapt_command,
  no_later, adapt_commands, adapt_bait, Adapted, missing_start, adapted, core_session_to_ml,
}

module _ (codec : Codec) where
  -- What a core command must be for `adapt_command` to give a command.
  abbrev pub IsAdapted : ℕ → CoreCommand → MlCommand → Type 0
  IsAdapted start c m =
      (c.timestamp_ms ≡ some m.timestamp)
      × (m.raw ≡ decode_raw codec c)
      × (codec.is_blank m.raw ≡ false)
      × (m.ms_offset ≡ m.timestamp - start)

  adapt_command-IsAdapted :
      (start : ℕ) (c : CoreCommand) (m : MlCommand)
      → adapt_command codec start c ≡ some m
      → IsAdapted start c m
  unfolding adapt_command
  adapt_command-IsAdapted start c m e = go c.timestamp_ms refl e
    where
      made : Option ℕ → Option MlCommand
      made o = elim o [
        | none ↦ none
        | some ts ↦
            if codec.is_blank (decode_raw codec c)
            then none
            else some (record { timestamp = ts; raw = decode_raw codec c; ms_offset = ts - start })
      ]

      go : (o : Option ℕ) → c.timestamp_ms ≡ o → made o ≡ some m → IsAdapted start c m
      go none at_c f = absurd (cc)
      go (some ts) at_c f = elim (Bool-cases (codec.is_blank (decode_raw codec c))) [
        | inl blank ↦ let g : none ≡ some m = rw blank at f in absurd (cc)
        | inr full ↦
            let line : MlCommand = record {
              timestamp = ts;
              raw = decode_raw codec c;
              ms_offset = ts - start;
            } in
            let g : some line ≡ some m = rw full at f in
            let n : line ≡ m = cc in subst (IsAdapted start c) n (at_c, refl, full, refl)
      ]

  IsAdapted-adapt_command :
      (start : ℕ) (c : CoreCommand) (m : MlCommand)
      → IsAdapted start c m
      → adapt_command codec start c ≡ some m
  unfolding adapt_command
  IsAdapted-adapt_command start c m (at_c, same_raw, full, offset) = go c.timestamp_ms at_c
    where
      go :
          (o : Option ℕ)
          → o ≡ some m.timestamp
          → (elim o [
            | none ↦ none
            | some ts ↦
                if codec.is_blank (decode_raw codec c)
                then none
                else some
                    (record { timestamp = ts; raw = decode_raw codec c; ms_offset = ts - start })
          ])
            ≡ some m
      go none e = absurd (cc)
      go (some ts) e =
          let n : ts ≡ m.timestamp = cc in
          let open_line : codec.is_blank (decode_raw codec c) ≡ false = rw (sym same_raw) full in
          rw (open_line, n, sym same_raw, sym offset) refl

  -- If the document has a session id and a start, the adapted session holds exactly the commands of
  -- the document that have a time and a line that is not blank, each with its line, its time and
  -- its time after the start, 0 if it was before; the id, start and duration are the document's.
  pub core_session_to_ml-commands_iff :
      (doc : CoreSession) (start : ℕ)
      → text_or "" doc.session_id ≢ ""
      → doc.start_ms ≡ some start
      → (s : MlSession) × (core_session_to_ml codec doc ≡ adapted s)
        × (s.ml_id ≡ text_or "" doc.session_id)
        × (s.start_time ≡ start)
        × (s.ml_duration ≡ doc.duration_ms)
        × ((m : MlCommand)
            → Memᴰ m s.ml_commands
              ↔ ((c : CoreCommand) × Memᴰ c doc.commands × IsAdapted start c m))
  unfolding core_session_to_ml adapt_commands
  core_session_to_ml-commands_iff doc start has_id has_start = (
    session start,
    returns,
    refl,
    refl,
    refl,
    λ m. (
      λ k.
          let (c, there, e) =
            mem-filter_some (adapt_command codec start) (sort_by (no_later codec) doc.commands) k in
          (c, mem-sort_by (no_later codec) doc.commands there, adapt_command-IsAdapted start c m e),
      λ (c, there, is_it).
          filter_some-mem (adapt_command codec start) (sort_by-mem (no_later codec) there)
            (IsAdapted-adapt_command start c m is_it),
    ),
  )
    where
      session : ℕ → MlSession
      session at = record {
        ml_id = text_or "" doc.session_id;
        ip = text_or "0.0.0.0" doc.client_ip;
        start_time = at;
        ml_commands = adapt_commands codec at doc.commands;
        ml_baits = adapt_bait doc.bait_interactions;
        ml_duration = doc.duration_ms;
      }

      made : Option ℕ → Adapted
      made o = elim o [
        | none ↦ missing_start (text_or "" doc.session_id)
        | some at ↦ adapted (session at)
      ]

      unfolded : core_session_to_ml codec doc ≡ made doc.start_ms
      unfolded = elim (Bool-cases (text_or "" doc.session_id == "")) [
        | inl empty ↦ absurd (has_id ((==_iff (text_or "" doc.session_id) "").0 empty))
        | inr full ↦ rw (full, core_session_to_ml) refl
      ]

      returns : core_session_to_ml codec doc ≡ adapted (session start)
      returns = unfolded ∙ ap made has_start
