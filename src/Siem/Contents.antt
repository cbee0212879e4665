-- ===== src/Siem/Contents.antt =====
-- What the directory of src/common/logging/siem-logger.service.ts holds: the entries of its lines, and how
-- a last hash binds them.
use mathlib.Core.List.{Memᴰ}
use proyecto_verde_auth.Base.{
  ℕ, ◌≤◌, ◌≡◌, ◌≢◌, ◌⊎◌, inl, inr, refl, List, [], ◌∷◌, ◌++◌, Option, none, some, Text, arith, same,
  same_iff, true, Bool-cases, All, map, sym, subst, ap, ◌∙◌, length,
}
use proyecto_verde_auth.Siem.Logger.{StandardLogFormat, LogEntry, LogFile, LogLibrary, genesis_hash}
use proyecto_verde_auth.Siem.Digest.{
  sha256_regex, digest-length, digest-HasNoBrace, brace_splits, HasNoBrace,
}
use proyecto_verde_auth.Siem.Files.{all_lines}

-- What is documented besides: a digest has 64 hexadecimal digits, and an object's JSON opens with a brace.
pub record DigestLaws {Value : Type 0} (lib : LogLibrary Value) : Type 0 where
  pub sha256_hex : (t : Text) → sha256_regex (lib.sha256 t) ≡ true
  pub stringify_object :
      (f : StandardLogFormat Value) → (rest : Text) × (lib.stringify f ≡ b'{' ∷ rest)

module _ {Value : Type 0} (lib : LogLibrary Value) where
  unfoldable pub read_onto : Option (LogEntry Value) → List (LogEntry Value) → List (LogEntry Value)
  read_onto none es = es
  read_onto (some e) es = e ∷ es

  -- The entries of lines, before those that were read already: the last one first.
  unfoldable pub entries_onto : List (LogEntry Value) → List Text → List (LogEntry Value)
  unfolding read_onto
  entries_onto es [] = es
  entries_onto es (line ∷ rest) = entries_onto (read_onto (lib.parse line) es) rest

  -- What `computeHash` hashes of an entry, and the entry's part of it.
  abbrev pub hashed : LogEntry Value → Text
  hashed e = e.previous_hash ++ lib.stringify e.format

  abbrev pub hashed_texts : List LogFile → List Text
  hashed_texts files = map hashed (entries_onto [] (all_lines files))

  abbrev pub contents : List LogFile → List Text
  contents files = map (λ e. lib.stringify e.format) (entries_onto [] (all_lines files))

  -- Two different texts, one of each list, with one digest.
  pub record Collision (ts us : List Text) : Type 0 where
    pub left : Text
    pub right : Text
    pub is_left : Memᴰ left ts
    pub is_right : Memᴰ right us
    pub differ : left ≢ right
    pub collide : lib.sha256 left ≡ lib.sha256 right

  -- The entries, the last one first, are linked from the first hash on to this one.
  abbrev pub Ends : List (LogEntry Value) → Text → Type 0
  Ends [] h = h ≡ genesis_hash
  Ends (e ∷ es) h = (h ≡ e.hash) × (lib.sha256 (hashed e) ≡ e.hash) × Ends es e.previous_hash

  -- Every line is an entry with a number from 1 to `n`.
  abbrev pub AreWithin : ℕ → List Text → Type 0
  AreWithin n = All λ line.
      (e : LogEntry Value) × (lib.parse line ≡ some e)
      × (1 ≤ e.log_sequence_number)
      × (e.log_sequence_number ≤ n)

  later-Collision : {t u : Text} {ts us : List Text} → Collision ts us → Collision (t ∷ ts) (u ∷ us)
  later-Collision c = record {
    left = c.left;
    right = c.right;
    is_left = Memᴰ.tail c.is_left;
    is_right = Memᴰ.tail c.is_right;
    differ = c.differ;
    collide = c.collide;
  }

  module _ (laws : DigestLaws lib) where
    Ends-HasNoBrace : (es : List (LogEntry Value)) (h : Text) → Ends es h → HasNoBrace h
    Ends-HasNoBrace [] h e = rw e (ground arith)
    Ends-HasNoBrace (e ∷ es) h (here, digest, rest) =
        rw (here ∙ sym digest)
          (digest-HasNoBrace (lib.sha256 (hashed e)) (laws.sha256_hex (hashed e)))

    -- A digest is not the first hash.
    not_genesis : (t : Text) → lib.sha256 t ≢ genesis_hash
    not_genesis t e =
        let n : length (lib.sha256 t) ≡ 7 = ap length e in
        let m = digest-length (lib.sha256 t) (laws.sha256_hex t) in omega arith

    hashed_splits :
        (e f : LogEntry Value)
        → HasNoBrace e.previous_hash
        → HasNoBrace f.previous_hash
        → hashed e ≡ hashed f
        → (e.previous_hash ≡ f.previous_hash) × (lib.stringify e.format ≡ lib.stringify f.format)
    hashed_splits e f he hf h =
        let (x, opens) = laws.stringify_object e.format in
        let (y, opens') = laws.stringify_object f.format in
        let (ps, xy) = brace_splits e.previous_hash f.previous_hash x y he hf (
          ap (λ t. e.previous_hash ++ t) (sym opens) ∙ h ∙ ap (λ t. f.previous_hash ++ t) opens') in
        (ps, cc (opens, opens', xy))

    pub Ends-agree :
        (es fs : List (LogEntry Value)) (h : Text)
        → Ends es h
        → Ends fs h
        → Collision (map hashed es) (map hashed fs)
          ⊎ (map (λ e. lib.stringify e.format) es ≡ map (λ e. lib.stringify e.format) fs)
    Ends-agree [] [] h p q = inr refl
    Ends-agree [] (f ∷ fs) h p (here, digest, rest) =
        absurd (not_genesis (hashed f) (cc (p, here, digest)))
    Ends-agree (e ∷ es) [] h (here, digest, rest) q =
        absurd (not_genesis (hashed e) (cc (q, here, digest)))
    Ends-agree (e ∷ es) (f ∷ fs) h (here, digest, rest) (here', digest', rest') =
        elim (Bool-cases (same (hashed e) (hashed f))) [
          | inl equal ↦
              let (prev, content) =
                hashed_splits e f (Ends-HasNoBrace es e.previous_hash rest)
                  (Ends-HasNoBrace fs f.previous_hash rest')
                  ((same_iff (hashed e) (hashed f)).0 equal) in
              elim (Ends-agree es fs e.previous_hash rest (subst (Ends fs) (sym prev) rest')) [
                | inl c ↦ inl (later-Collision c)
                | inr same_contents ↦ inr (cc (content, same_contents))
              ]
          | inr differs ↦ inl (record {
            left = hashed e;
            right = hashed f;
            is_left = Memᴰ.head refl;
            is_right = Memᴰ.head refl;
            differ = λ p. cc (differs, (same_iff (hashed e) (hashed f)).1 p);
            collide = cc (here, digest, here', digest');
          })
        ]
