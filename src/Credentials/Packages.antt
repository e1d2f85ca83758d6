-- ===== src/Credentials/Packages.antt =====
-- The packages that analystwatch/credential_crypto.py calls (`cryptography`, `base64`, `json`, the
-- codecs of `str`) as a record of functions and a record of what their documentation says, and the
-- two helpers on base64 text.
use Prim.Native.Char.{code, Char}
use Prim.Native.String.{count}
use Prim.Native.String as Str
use analyst_watch.Prelude.{
  leb, ◌||◌, ℕ, ◌-◌, ◌%◌, String, false, ◌&&◌, Option, none, some, List, ◌≡◌, eqb, if◌then◌else◌,
  ◌==◌, is_blank_or_padded, Bool, true,
}

-- A value of the objects that are dumped.
pub data Scalar : Type 0 where
  text : String → Scalar
  number : ℕ → Scalar

pub record Library : Type 1 where
  pub Bytes : Type 0
  -- `len(b)`
  pub byte_count : Bytes → ℕ
  -- `s.encode("utf-8")` and `b.decode("utf-8")`
  pub encode : String → Bytes
  pub decode : Bytes → Option String
  -- `s.encode("ascii")` of a text of such characters, and `b.decode("ascii")`
  pub encode_ascii : String → Bytes
  pub decode_ascii : Bytes → Option String
  -- `hashlib.sha256(b).digest()`
  pub sha256 : Bytes → Bytes
  -- `AESGCM(key).encrypt(nonce, data, associated_data)` and `decrypt`, `none` for `InvalidTag`
  pub seal : Bytes → Bytes → Bytes → Bytes → Bytes
  pub unseal : Bytes → Bytes → Bytes → Bytes → Option Bytes
  -- `base64.urlsafe_b64encode(b).decode("ascii")` and `base64.b64decode(s, altchars=b"-_",
  -- validate=True)`, `none` for `ValueError`
  pub b64encode : Bytes → String
  pub b64decode : String → Option Bytes
  -- `json.dumps(payload, sort_keys=True, separators=(",", ":")).encode("utf-8")`
  pub dump : List (String × Scalar) → Bytes

-- `value.rstrip("=")`
unfoldable pub rstrip_padding : String → String
rstrip_padding Str.[] = ""
rstrip_padding (Str.◌∷◌ c s) =
    let rest = rstrip_padding s in if eqb (code c) 61 && rest == "" then "" else Str.◌∷◌ c rest

-- `value + "=" * (-len(value) % 4)`
abbrev pub repad : String → String
repad value =
    let padding = (4 - count value % 4) % 4 in
    Str.◌++◌ value (
      if eqb padding 1
      then "="
      else if eqb padding 2
      then "=="
      else if eqb padding 3
      then "==="
      else "")

-- `_encode_base64`
unfoldable pub encode_base64 : (lib : Library) → lib.Bytes → String
encode_base64 lib value = rstrip_padding (lib.b64encode value)

-- `_decode_base64`, `none` for `ValueError`
unfoldable pub decode_base64 : (lib : Library) → String → Option lib.Bytes
decode_base64 lib value = if is_blank_or_padded value then none else lib.b64decode (repad value)

-- The class [A-Za-z0-9_-].
is_opaque_char : Char → Bool
is_opaque_char ch =
    let c = code ch in
    (leb 65 c && leb c 90)
    || (leb 97 c && leb c 122)
    || (leb 48 c && leb c 57)
    || eqb c 95
    || eqb c 45

all_opaque : String → Bool
all_opaque Str.[] = true
all_opaque (Str.◌∷◌ c s) = is_opaque_char c && all_opaque s

-- `OPAQUE_TOKEN_PATTERN.fullmatch(value)` of analystwatch/oauth_authorization.py.
unfoldable pub is_opaque : String → Bool
unfolding is_opaque_char all_opaque
is_opaque value = eqb (count value) 43 && all_opaque value

-- What the documentation of the packages says.
pub record IsLibrary (lib : Library) : Type 0 where
  -- Decryption with the same key, nonce and associated data gives the plaintext.
  pub unseal-seal :
      (key nonce plaintext aad : lib.Bytes)
      → lib.unseal key nonce (lib.seal key nonce plaintext aad) aad ≡ some plaintext
  -- The ciphertext ends in a tag of 16 bytes.
  pub seal-nonempty :
      (key nonce plaintext aad : lib.Bytes)
      → eqb (lib.byte_count (lib.seal key nonce plaintext aad)) 0 ≡ false
  pub decode-encode : (s : String) → lib.decode (lib.encode s) ≡ some s
  pub decode_ascii-encode_ascii :
      (s : String) → is_opaque s ≡ true → lib.decode_ascii (lib.encode_ascii s) ≡ some s
  pub encode-nonempty :
      (s : String) → (s == "") ≡ false → eqb (lib.byte_count (lib.encode s)) 0 ≡ false
  pub b64decode-b64encode : (b : lib.Bytes) → lib.b64decode (lib.b64encode b) ≡ some b
  -- The text is padded to a multiple of four characters, and is not empty when the bytes are not.
  pub b64encode-padded :
      (b : lib.Bytes) → repad (rstrip_padding (lib.b64encode b)) ≡ lib.b64encode b
  pub b64encode-trimmed :
      (b : lib.Bytes)
      → eqb (lib.byte_count b) 0 ≡ false
      → is_blank_or_padded (rstrip_padding (lib.b64encode b)) ≡ false
  pub dump-nonempty :
      (payload : List (String × Scalar)) → eqb (lib.byte_count (lib.dump payload)) 0 ≡ false

pub decode_base64-encode_base64 :
    (lib : Library)
    → IsLibrary lib
    → (b : lib.Bytes) → eqb (lib.byte_count b) 0 ≡ false
    → decode_base64 lib (encode_base64 lib b) ≡ some b
unfolding decode_base64 encode_base64
decode_base64-encode_base64 lib laws b h =
    rw (laws.b64encode-trimmed b h, laws.b64encode-padded b) (laws.b64decode-b64encode b)
