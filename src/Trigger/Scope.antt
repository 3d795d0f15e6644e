-- ===== src/Trigger/Scope.antt =====
-- What the fingerprint of an Event tells apart: the bytes that are hashed, and where the separator
-- may stand in them.
use mathlib.Core.List.{append_assoc}
use rootforge.Prelude.{
  ℕ, ◌≡◌, ◌≢◌, refl, sym, ap, ◌∙◌, ◌⊎◌, inl, inr, Bool-cases, true, false, List, [], ◌∷◌, ◌++◌, All,
  arith,
}
use mathlib.Core.Bool.{false≢true}
use rootforge.Text.{Text, text, is_empty, join, hex_encode, text_eq, text_eq_iff, text_eq_sound}
use rootforge.Platform.{Platform}
use rootforge.Trigger.{Event, fingerprint_parts, fingerprint, normalize}

-- A string without the separator.
abbrev pub NoNul : Text → Type 0
NoNul s = All (λ (b : ℕ). b ≢ 0) s

abbrev sep : Text
sep = 0 ∷ []

-- Two strings that end at a separator are read back.
split_at_nul :
    (s t x y : Text) → NoNul s → NoNul t → s ++ (0 ∷ x) ≡ t ++ (0 ∷ y) → (s ≡ t) × (x ≡ y)
split_at_nul [] [] x y hs ht e = (refl, cc e)
split_at_nul [] (b ∷ t) x y hs ht e = absurd (ht.0 (cc e))
split_at_nul (a ∷ s) [] x y hs ht e = absurd (hs.0 (cc e))
split_at_nul (a ∷ s) (b ∷ t) x y hs ht e =
    let (same, rest) = split_at_nul s t x y hs.1 ht.1 (cc e) in (cc (e, same), rest)

no_sep : (s t x : Text) → NoNul s → s ≢ t ++ (0 ∷ x)
no_sep [] [] x h e = absurd (cc e)
no_sep [] (b ∷ t) x h e = absurd (cc e)
no_sep (a ∷ s) [] x h e = h.0 (cc e)
no_sep (a ∷ s) (b ∷ t) x h e = no_sep s t x h.1 (cc e)

-- Of strings without the separator, as many on both sides, the joined string determines each.
join-injective :
    (s t : Text) (ss ts : List Text)
    → All NoNul (s ∷ ss)
    → All NoNul (t ∷ ts)
    → join sep (s ∷ ss) ≡ join sep (t ∷ ts)
    → s ∷ ss ≡ t ∷ ts
unfolding join
join-injective s t [] [] hs ht e = cc e
join-injective s t [] (u ∷ us) hs ht e = absurd (no_sep s t (join sep (u ∷ us)) hs.0 e)
join-injective s t (u ∷ us) [] hs ht e = absurd (no_sep t s (join sep (u ∷ us)) ht.0 (sym e))
join-injective s t (u ∷ us) (v ∷ vs) hs ht e =
    let (same, rest) = split_at_nul s t (join sep (u ∷ us)) (join sep (v ∷ vs)) hs.0 ht.0 e in
    let tail = join-injective u v us vs hs.1 ht.1 rest in cc (same, tail)

-- The two Events have the same explicit key of the same source, or both have none and the same
-- scope.
abbrev pub KeyedAlike : Event → Event → Type 0
KeyedAlike e f =
    ((is_empty e.dedupe_key ≡ false) × (e.source ≡ f.source) × (e.dedupe_key ≡ f.dedupe_key))
    ⊎ ((is_empty e.dedupe_key ≡ true)
        × (is_empty f.dedupe_key ≡ true)
        × (e.type ≡ f.type)
        × (e.environment ≡ f.environment)
        × (e.service ≡ f.service)
        × (e.node ≡ f.node)
        × (e.workload ≡ f.workload)
        × (e.container ≡ f.container))

parts-KeyedAlike : (e f : Event) → fingerprint_parts e ≡ fingerprint_parts f → KeyedAlike e f
unfolding fingerprint_parts
parts-KeyedAlike e f h = ground arith

bytes-KeyedAlike :
    (e f : Event)
    → All NoNul (fingerprint_parts e)
    → All NoNul (fingerprint_parts f)
    → join (0 ∷ []) (fingerprint_parts e) ≡ join (0 ∷ []) (fingerprint_parts f)
    → KeyedAlike e f
unfolding fingerprint_parts
bytes-KeyedAlike e f he hf h =
    parts-KeyedAlike e f
      (join-injective (text "rootforge-trigger-v1") (text "rootforge-trigger-v1") _ _ he hf h)

-- The bytes that Fingerprint hashes: the parts of the normal form, with a NUL byte between them.
abbrev pub hashed : Platform → Event → Text
hashed p e = join (0 ∷ []) (fingerprint_parts (normalize p e))

-- Two different strings with the same digest, written in hexadecimal.
abbrev pub Collide : Platform → Text → Text → Type 0
Collide p s t = (s ≢ t) × (hex_encode (p.sha256 s) ≡ hex_encode (p.sha256 t))

-- If two Events have the same fingerprint, and no part of the normal form of either that Fingerprint
-- hashes has a NUL byte, then the digest has a collision on the bytes that are hashed, or the normal
-- forms have the same explicit key of the same source, or neither has an explicit key and both have
-- the same type and scope.
pub fingerprint-KeyedAlike :
    (p : Platform) (e f : Event)
    → All NoNul (fingerprint_parts (normalize p e))
    → All NoNul (fingerprint_parts (normalize p f))
    → fingerprint p e ≡ fingerprint p f
    → Collide p (hashed p e) (hashed p f) ⊎ KeyedAlike (normalize p e) (normalize p f)
unfolding fingerprint
fingerprint-KeyedAlike p e f he hf h = elim (Bool-cases (text_eq (hashed p e) (hashed p f))) [
  | inl same ↦ inr (
      bytes-KeyedAlike (normalize p e) (normalize p f) he hf
        (text_eq_sound (hashed p e) (hashed p f) same))
  | inr differ ↦
      inl (λ same. false≢true (sym differ ∙ (text_eq_iff (hashed p e) (hashed p f)).1 same), h)
]

is_empty_append : (a b : Text) → is_empty (a ++ (0 ∷ b)) ≡ false
unfolding is_empty
is_empty_append [] b = refl
is_empty_append (x ∷ a) b = refl

explicit_bytes :
    (e : Event)
    → is_empty e.dedupe_key ≡ false
    → join sep (fingerprint_parts e)
      ≡ text "rootforge-trigger-v1"
        ++ (0 ∷ (text "explicit" ++ (0 ∷ (e.source ++ (0 ∷ e.dedupe_key)))))
unfolding fingerprint_parts join
explicit_bytes e h = rw h refl

-- With a NUL byte in it, a key can pass into another source: an Event of the source `s 0 a` with the
-- key `b`, and one of the source `s` with the key `a 0 b`, have the same fingerprint, for every
-- digest.
pub fingerprint-collision :
    (p : Platform) (e f : Event) (s a b : Text)
    → (normalize p e).source ≡ s ++ (0 ∷ a)
    → (normalize p e).dedupe_key ≡ b
    → (normalize p f).source ≡ s
    → (normalize p f).dedupe_key ≡ a ++ (0 ∷ b)
    → is_empty b ≡ false
    → fingerprint p e ≡ fingerprint p f
unfolding fingerprint
fingerprint-collision p e f s a b source_e key_e source_f key_f given =
    ap (λ (x : Text). hex_encode (p.sha256 x))
      (explicit_bytes (normalize p e) (rw key_e given)
        ∙ rw (source_e, key_e, source_f, key_f)
            (ap (λ (x : Text). text "rootforge-trigger-v1" ++ (0 ∷ (text "explicit" ++ (0 ∷ x))))
              (append_assoc s (0 ∷ a) (0 ∷ b)))
        ∙ sym (explicit_bytes (normalize p f) (rw key_f (is_empty_append a b))))
