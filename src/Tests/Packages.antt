-- ===== src/Tests/Packages.antt =====
-- Functions that satisfy what is assumed of the packages, for the examples: bytes are texts, a
-- character is encoded as itself and three fillers, and encryption marks the plaintext.
use Prim.Native.Char.{Char}
use Prim.Native.String.{count}
use Prim.Native.String as Str
use text.Mathlib.TextLemmas.{cons-append, length-cons, cons-ne-nil}
use analyst_watch.Prelude.{
  eq_refl, is_space, lstrip, rstrip, String, Option, some, none, false, refl, ◌≡◌, eqb, ◌%◌, ◌==◌,
  arith, eq_iff, ap, strip, Bool-cases, inl, inr, is_blank_or_padded, ◌∙◌,
}
use analyst_watch.Credentials.{Library, IsLibrary, rstrip_padding, repad}

abbrev quads : String → String
quads Str.[] = ""
quads (Str.◌∷◌ c s) = Str.◌∷◌ c (Str.◌∷◌ "x" (Str.◌∷◌ "x" (Str.◌∷◌ "x" (quads s))))

abbrev unquads : String → String
unquads Str.[] = ""
unquads (Str.◌∷◌ c Str.[]) = ""
unquads (Str.◌∷◌ c (Str.◌∷◌ x Str.[])) = ""
unquads (Str.◌∷◌ c (Str.◌∷◌ x (Str.◌∷◌ y Str.[]))) = ""
unquads (Str.◌∷◌ c (Str.◌∷◌ x (Str.◌∷◌ y (Str.◌∷◌ z s)))) = Str.◌∷◌ c (unquads s)

abbrev untag : String → Option String
untag Str.[] = none
untag (Str.◌∷◌ c s) = some s

abbrev quads_padded : String → String
quads_padded Str.[] = "="
quads_padded (Str.◌∷◌ c s) = Str.◌∷◌ c (Str.◌∷◌ "x" (Str.◌∷◌ "x" (Str.◌∷◌ "x" (quads_padded s))))

-- Three fillers first, so that the padding is one character.
abbrev marked : String → String
marked s = Str.◌∷◌ "x" (Str.◌∷◌ "x" (Str.◌∷◌ "x" s))

abbrev unmarked : String → Option String
unmarked (Str.◌∷◌ c (Str.◌∷◌ x (Str.◌∷◌ y s))) = some (unquads s)
unmarked s = none

abbrev pub plain : Library
plain = record {
  Bytes = String;
  byte_count = count;
  encode = λ s. s;
  decode = λ b. some b;
  encode_ascii = λ s. s;
  decode_ascii = λ b. some b;
  sha256 = λ b. "0123456789";
  seal = λ key nonce plaintext aad. Str.◌∷◌ "x" plaintext;
  unseal = λ key nonce ciphertext aad. untag ciphertext;
  b64encode = λ b. marked (quads_padded b);
  b64decode = unmarked;
  dump = λ payload. "{}";
}

cons-not_empty : (c : Char) (s : String) → (Str.◌∷◌ c s == "") ≡ false
cons-not_empty c s = elim (Bool-cases (Str.◌∷◌ c s == "")) [
  | inl t ↦ absurd (cons-ne-nil c s (ground (arith, eq_iff (Str.◌∷◌ c s) "")))
  | inr f ↦ f
]

rstrip_padding-quads : (s : String) → rstrip_padding (quads_padded s) ≡ quads s
unfolding rstrip_padding
rstrip_padding-quads Str.[] = refl
rstrip_padding-quads (Str.◌∷◌ c s) =
    rw (rstrip_padding-quads s, cons-not_empty "x" (Str.◌∷◌ "x" (Str.◌∷◌ "x" (quads s))))
      (ground arith)

rstrip_padding-marked : (s : String) → rstrip_padding (marked (quads_padded s)) ≡ marked (quads s)
unfolding rstrip_padding
rstrip_padding-marked s = rw (rstrip_padding-quads s) refl

rstrip-quads : (s : String) → rstrip (quads s) ≡ quads s
unfolding rstrip is_space
rstrip-quads Str.[] = refl
rstrip-quads (Str.◌∷◌ c s) =
    rw (rstrip-quads s, cons-not_empty "x" (Str.◌∷◌ "x" (Str.◌∷◌ "x" (quads s)))) (ground arith)

marked-trimmed : (s : String) → is_blank_or_padded (marked (quads s)) ≡ false
unfolding is_blank_or_padded strip rstrip lstrip is_space
marked-trimmed s =
    rw
      (
        rstrip-quads s,
        cons-not_empty "x" (Str.◌∷◌ "x" (Str.◌∷◌ "x" (quads s))),
        eq_refl (marked (quads s)),
      )
      refl

unquads-quads : (s : String) → unquads (quads_padded s) ≡ s
unquads-quads Str.[] = refl
unquads-quads (Str.◌∷◌ c s) = ap (Str.◌∷◌ c) (unquads-quads s)

count-quads : (s : String) → count (quads s) % 4 ≡ 0
count-quads Str.[] = refl
count-quads (Str.◌∷◌ c s) =
    rw (length-cons, length-cons, length-cons, length-cons) (omega (arith, count-quads s))

append-quads : (s : String) → Str.◌++◌ (quads s) "=" ≡ quads_padded s
append-quads Str.[] = refl
append-quads (Str.◌∷◌ c s) =
    rw (cons-append, cons-append, cons-append, cons-append, append-quads s) refl

repad-three : (v : String) → count v % 4 ≡ 3 → repad v ≡ Str.◌++◌ v "="
repad-three v h = rw h refl

repad-marked : (s : String) → repad (marked (quads s)) ≡ marked (quads_padded s)
repad-marked s =
    repad-three (marked (quads s))
      (rw (length-cons, length-cons, length-cons) (omega (arith, count-quads s)))
    ∙ rw (cons-append, cons-append, cons-append, append-quads s) refl

not_empty-count : (s : String) → (s == "") ≡ false → eqb (count s) 0 ≡ false
not_empty-count Str.[] h = absurd (ground arith)
not_empty-count (Str.◌∷◌ c s) h = rw length-cons (ground arith)

pub plain-IsLibrary : IsLibrary plain
plain-IsLibrary = record {
  unseal-seal = λ key nonce plaintext aad. refl;
  seal-nonempty = λ key nonce plaintext aad. rw length-cons (ground arith);
  decode-encode = λ s. refl;
  decode_ascii-encode_ascii = λ s h. refl;
  encode-nonempty = not_empty-count;
  b64decode-b64encode = λ b. rw (unquads-quads b) refl;
  b64encode-padded = λ b. rw (rstrip_padding-marked b) (repad-marked b);
  b64encode-trimmed = λ b h. rw (rstrip_padding-marked b) (marked-trimmed b);
  dump-nonempty = λ payload. refl;
}
