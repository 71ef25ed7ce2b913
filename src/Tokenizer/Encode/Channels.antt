-- ===== src/Tokenizer/Encode/Channels.antt =====
-- ml/mirage/tokenizer/tokenizer.py: the channels of an encoded session are aligned.
use mirage_core.Shared.{
  ℕ, suc, ◌+◌, ◌≡◌, refl, sym, ap, Bool, true, false, Option, none, some, List, [], ◌∷◌, ◌++◌, map,
  if◌then◌else◌, arith, length, length-append, length-replicate, replicate, append-nil, max, ◌==◌,
  string_eq,
}
use mirage_core.Tokenizer.{
  Runtime, Session, Command, AuthAttempt, CommandTokenizer, EncodedSession, encode_command,
  special_id, pad_token,
}
use mirage_core.Tokenizer.Encode.{
  Steps, no_steps, then_steps, attempt_steps, metadata_steps, metadata_step, command_steps,
  special_step, duration_step, session_steps, missing, encode,
}

module _ (rt : Runtime) where
  open rt use {Float, of_nat}

  -- As many ids as times.
  abbrev IsAligned : Steps rt → Type 0
  IsAligned s = length s.ids ≡ length s.timing

  then_steps-IsAligned :
      (a b : Steps rt) → IsAligned a → IsAligned b → IsAligned (then_steps rt a b)
  then_steps-IsAligned a b h k =
      omega (arith, length-append a.ids b.ids, length-append a.timing b.timing, h, k)

  if-IsAligned :
      (c : Bool) (a b : Steps rt) → IsAligned a → IsAligned b → IsAligned (if c then a else b)
  if-IsAligned true a b h k = h
  if-IsAligned false a b h k = k

  module _ (tok : CommandTokenizer rt) (standardize : Bool) where
    attempt_steps-IsAligned :
        (attempts : List AuthAttempt) → IsAligned (attempt_steps rt tok standardize attempts)
    unfolding attempt_steps metadata_step
    attempt_steps-IsAligned [] = refl
    attempt_steps-IsAligned (a ∷ attempts) = ap suc (attempt_steps-IsAligned attempts)

    metadata_steps-IsAligned :
        (session : Session) → IsAligned (metadata_steps rt tok standardize session)
    unfolding metadata_steps duration_step metadata_step
    metadata_steps-IsAligned session = ap suc (
        then_steps-IsAligned _ _
          (if-IsAligned (session.ssh_client_banner == "") (no_steps rt) _ refl refl)
          (attempt_steps-IsAligned session.auth_attempts))

    command_steps-IsAligned :
        (prev : Option ℕ) (commands : List Command)
        → IsAligned (command_steps rt tok standardize prev commands)
    unfolding command_steps
    command_steps-IsAligned prev [] = refl
    command_steps-IsAligned prev (c ∷ cs) = ap suc (command_steps-IsAligned (some c.ms_offset) cs)

    session_steps-IsAligned :
        (max_length : Option ℕ) (session : Session)
        → IsAligned (session_steps rt tok standardize max_length session)
    unfolding session_steps special_step
    session_steps-IsAligned max_length session =
        then_steps-IsAligned _ _ (if-IsAligned tok.config.add_bos _ _ refl refl) (
          then_steps-IsAligned _ _
            (if-IsAligned tok.config.use_metadata _ _ (metadata_steps-IsAligned session) refl)
            (then_steps-IsAligned _ _ (command_steps-IsAligned none _)
              (if-IsAligned tok.config.add_eos _ _ refl refl)))

    -- The ids of the commands, each encoded on its own.
    command_steps-ids :
        (prev : Option ℕ) (commands : List Command)
        → (command_steps rt tok standardize prev commands).ids
          ≡ map (λ c. encode_command rt tok c.raw) commands
    unfolding command_steps
    command_steps-ids prev [] = refl
    command_steps-ids prev (c ∷ cs) =
        ap (λ xs. encode_command rt tok c.raw ∷ xs) (command_steps-ids (some c.ms_offset) cs)

    -- The length that `pad_to` asks for, or the one that is there.
    abbrev pub width : Option ℕ → ℕ → ℕ
    width none n = n
    width (some w) n = max n w

    width-missing :
        (pad_to : Option ℕ) (n : ℕ) → n + missing rt tok standardize pad_to n ≡ width pad_to n
    unfolding missing
    width-missing none n = omega arith
    width-missing (some w) n = ground arith

    length-padded :
        {A : Type 0} (pad_to : Option ℕ) (n : ℕ) (xs : List A) (a : A)
        → length xs ≡ n
        → length (xs ++ replicate (missing rt tok standardize pad_to n) a) ≡ width pad_to n
    length-padded pad_to n xs a h = omega (
      arith,
      h,
      length-append xs (replicate (missing rt tok standardize pad_to n) a),
      length-replicate (missing rt tok standardize pad_to n) a,
      width-missing pad_to n,
    )

    module _ (max_length pad_to : Option ℕ) (session : Session) where
      abbrev encoded : EncodedSession rt
      encoded = encode rt tok standardize max_length pad_to session

      abbrev unpadded : EncodedSession rt
      unpadded = encode rt tok standardize max_length none session

      -- The three channels of an encoded session have one length: that before padding, or `pad_to` if
      -- that is more.
      pub encode-length :
          (length encoded.input_ids ≡ width pad_to encoded.length_of)
          × (length encoded.timing ≡ width pad_to encoded.length_of)
          × (length encoded.attention_mask ≡ width pad_to encoded.length_of)
      unfolding encode
      encode-length =
          let steps = session_steps rt tok standardize max_length session in
          let n = length steps.ids in
          (
            length-padded pad_to n steps.ids (special_id tok.tables pad_token) refl,
            length-padded pad_to n steps.timing (of_nat 0)
                (sym (session_steps-IsAligned max_length session)),
            length-padded pad_to n (replicate n 1) 0 (length-replicate n 1),
          )

      -- Padding appends `<pad>` to the ids, zero to the times and 0 to the mask of the session as it
      -- is encoded without padding, whose mask is all 1.
      pub encode-padded :
          (k : ℕ) × (encoded.input_ids
            ≡ unpadded.input_ids ++ replicate k (special_id tok.tables pad_token))
          × (encoded.timing ≡ unpadded.timing ++ replicate k (of_nat 0))
          × (encoded.attention_mask ≡ replicate (length unpadded.input_ids) 1 ++ replicate k 0)
          × (encoded.length_of ≡ length unpadded.input_ids)
      unfolding encode missing
      encode-padded =
          let steps = session_steps rt tok standardize max_length session in
          let n = length steps.ids in
          let ids = append-nil steps.ids in
          (
            missing rt tok standardize pad_to n,
            ap
                (λ xs.
                  xs
                  ++ replicate (missing rt tok standardize pad_to n)
                      (special_id tok.tables pad_token))
                (sym ids),
            ap (λ xs. xs ++ replicate (missing rt tok standardize pad_to n) (of_nat 0))
                (sym (append-nil steps.timing)),
            ap (λ xs. replicate (length xs) 1 ++ replicate (missing rt tok standardize pad_to n) 0)
                (sym ids),
            ap length (sym ids),
          )
