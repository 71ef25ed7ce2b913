-- ===== src/Tokenizer/Encode/Batch.antt =====
-- ml/mirage/tokenizer/tokenizer.py: `encode_batch` pads to one width.
use mirage_core.Shared.{
  ℕ, ◌≤◌, ◌≡◌, refl, ◌∙◌, Bool, Option, none, some, List, [], ◌∷◌, map, arith, length, max, All,
}
use mirage_core.Tokenizer.{Runtime, Session, CommandTokenizer, EncodedSession}
use mirage_core.Tokenizer.Encode.{encode, longest, encode_batch}
use mirage_core.Tokenizer.Encode.Channels.{encode-length, encode-padded}

module _ (rt : Runtime) (tok : CommandTokenizer rt) (standardize : Bool) where
  longest-le : (n : ℕ) (es : List (EncodedSession rt)) → n ≤ longest rt tok standardize n es
  unfolding longest
  longest-le n [] = omega arith
  longest-le n (e ∷ es) = omega (arith, longest-le (max n e.length_of) es)

  longest-All :
      (n : ℕ) (es : List (EncodedSession rt))
      → All (λ e. e.length_of ≤ longest rt tok standardize n es) es
  unfolding longest
  longest-All n [] = tt
  longest-All n (e ∷ es) =
      (omega (arith, longest-le (max n e.length_of) es), longest-All (max n e.length_of) es)

  -- All channels have the length `w`.
  abbrev pub HasWidth : ℕ → EncodedSession rt → Type 0
  HasWidth w e = (length e.input_ids ≡ w) × (length e.timing ≡ w) × (length e.attention_mask ≡ w)

  module _ (max_length : Option ℕ) where
    abbrev pub plain : Session → EncodedSession rt
    plain session = encode rt tok standardize max_length none session

    padded-HasWidth :
        (w : ℕ) (session : Session)
        → (plain session).length_of ≤ w
        → HasWidth w (encode rt tok standardize max_length (some w) session)
    padded-HasWidth w session fits =
        let (ids, times, mask) = encode-length rt tok standardize max_length (some w) session in
        let (k, a, b, c, n) = encode-padded rt tok standardize max_length (some w) session in
        let (k', a', b', c', n') = encode-padded rt tok standardize max_length none session in
        let same : max (encode rt tok standardize max_length (some w) session).length_of w ≡ w =
          omega (arith, n, n', fits) in
        (ids ∙ same, times ∙ same, mask ∙ same)

    padded-All :
        (w : ℕ) (sessions : List Session)
        → All (λ e. e.length_of ≤ w) (map plain sessions)
        → All (HasWidth w) (map (encode rt tok standardize max_length (some w)) sessions)
    padded-All w [] fits = tt
    padded-All w (session ∷ sessions) fits =
        (padded-HasWidth w session fits.0, padded-All w sessions fits.1)

    -- The sessions of a batch are encoded in order, each padded to one width, so that every channel of
    -- every session has the same length.
    pub encode_batch-HasWidth :
        (sessions : List Session)
        → (w : ℕ) × (encode_batch rt tok standardize max_length sessions
            ≡ map (encode rt tok standardize max_length (some w)) sessions)
          × All (HasWidth w) (encode_batch rt tok standardize max_length sessions)
    unfolding encode_batch
    encode_batch-HasWidth [] = (0, refl, tt)
    encode_batch-HasWidth (session ∷ sessions) =
        let e = plain session in
        let es = map plain sessions in
        let w = longest rt tok standardize e.length_of es in
        (
          w,
          refl,
          padded-All w (session ∷ sessions) (longest-le e.length_of es, longest-All e.length_of es),
        )
