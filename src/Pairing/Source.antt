-- ===== src/Pairing/Source.antt =====
-- The text of a pairing link in src-tauri/src/pairing.rs.
use Prim.Native.Char.{Char, code}
use dash_drop.Base.{
  ℕ, String, Bool, true, false, Option, none, some, List, [], ◌∷◌, ◌≡◌, refl, ap, ◌∙◌, ◌&&◌, not,
  ◌==◌, nat_eq, if◌then◌else◌, is_none, option_or, is_empty_str, trim, trim_solid, is_solid, Result,
  ok, err, ◌>>=◌, arith, beq_refl,
}
use dash_drop.Pairing.Payload.{
  PairingError, link_empty, link_without_data, data_not_base64, data_not_utf8, Libraries,
}

-- `format!("{a}{b}")`.
unfoldable pub join : String → String → String
join String.[] b = b
join (String.◌∷◌ c a) b = String.◌∷◌ c (join a b)

unfoldable pub strip_prefix : String → String → Option String
strip_prefix String.[] s = some s
strip_prefix (String.◌∷◌ c p) String.[] = none
strip_prefix (String.◌∷◌ c p) (String.◌∷◌ d s) =
    let rest = strip_prefix p s in if code c == code d then rest else none

abbrev before_first : Char → List String → List String
before_first c [] = []
before_first c (part ∷ parts) = String.◌∷◌ c part ∷ parts

-- `s.split('&')`: 38 is the number of the separator.
unfoldable pub split_entries : String → List String
split_entries String.[] = String.[] ∷ []
split_entries (String.◌∷◌ c s) =
    let rest = split_entries s in if code c == 38 then String.[] ∷ rest else before_first c rest

unfoldable pub find_data : List String → Option String
unfolding strip_prefix
find_data [] = none
find_data (entry ∷ entries) = option_or (strip_prefix "data=" entry) (find_data entries)

abbrev pub prefix : String
prefix = "dashdrop://pair?"

abbrev pub ok_or {ℓ} : {A : Type ℓ} → Option A → PairingError → Result A PairingError
ok_or none why = err why
ok_or (some x) why = ok x

unfoldable pub decode_text : Libraries → String → Result String PairingError
decode_text lib encoded = do
  bytes ← ok_or (lib.decode_url_safe encoded) data_not_base64
  ok_or (lib.from_utf8 bytes) data_not_utf8

unfoldable pub decode_query : Libraries → String → Result String PairingError
unfolding find_data split_entries decode_text
decode_query lib query = do
  encoded ← ok_or (find_data (split_entries query)) link_without_data
  decode_text lib encoded

unfoldable pub decode_pairing_payload_source : Libraries → String → Result String PairingError
unfolding strip_prefix decode_query decode_text
decode_pairing_payload_source lib input =
    let raw = trim input in
    if is_empty_str raw then err link_empty else elim (strip_prefix prefix raw) [
      | some query ↦ decode_query lib query
      | none ↦ if is_none (strip_prefix "{" raw) then decode_text lib raw else ok raw
    ]

-- The text has no separator of entries.
abbrev pub is_one_entry : String → Bool
is_one_entry String.[] = true
is_one_entry (String.◌∷◌ c s) = not (code c == 38) && is_one_entry s

pub strip_prefix-join : (p s : String) → strip_prefix p (join p s) ≡ some s
unfolding strip_prefix join
strip_prefix-join String.[] s = refl
strip_prefix-join (String.◌∷◌ c p) s = rw (beq_refl (code c)) (strip_prefix-join p s)

split_one : (s : String) → is_one_entry s ≡ true → split_entries s ≡ s ∷ []
unfolding split_entries
split_one String.[] h = refl
split_one (String.◌∷◌ c s) h =
    let other : (code c == 38) ≡ false = ground (arith, h) in
    rw (other, split_one s (ground (arith, h))) refl

join_solid : (a b : String) → is_solid (join a b) ≡ (is_solid a && is_solid b)
unfolding join
join_solid String.[] b = refl
join_solid (String.◌∷◌ c a) b = ground (arith, join_solid a b)

join_one : (a b : String) → is_one_entry (join a b) ≡ (is_one_entry a && is_one_entry b)
unfolding join
join_one String.[] b = refl
join_one (String.◌∷◌ c a) b = ground (arith, join_one a b)

abbrev pub link_of : String → String
link_of encoded = join prefix (join "data=" encoded)

link_filled : (entry : String) → is_empty_str (join prefix entry) ≡ false
unfolding join
link_filled entry = refl

find_data-entry : (encoded : String) → find_data (join "data=" encoded ∷ []) ≡ some encoded
unfolding find_data
find_data-entry encoded = ap (λ o. option_or o none) (strip_prefix-join "data=" encoded)

decode_query-entry :
    (lib : Libraries) (encoded : String) (bytes : List ℕ) (text : String)
    → split_entries (join "data=" encoded) ≡ join "data=" encoded ∷ []
    → lib.decode_url_safe encoded ≡ some bytes
    → lib.from_utf8 bytes ≡ some text
    → decode_query lib (join "data=" encoded) ≡ ok text
unfolding decode_query decode_text
decode_query-entry lib encoded bytes text parts decoded read =
    rw (parts, find_data-entry encoded, decoded, read) refl

-- A link with data of one entry, without white characters, is decoded to the text of its data.
pub decode-link_of :
    (lib : Libraries) (encoded : String) (bytes : List ℕ) (text : String)
    → is_solid encoded ≡ true
    → is_one_entry encoded ≡ true
    → lib.decode_url_safe encoded ≡ some bytes
    → lib.from_utf8 bytes ≡ some text
    → decode_pairing_payload_source lib (link_of encoded) ≡ ok text
unfolding decode_pairing_payload_source
decode-link_of lib encoded bytes text solid one decoded read =
    let entry = join "data=" encoded in
    let whole : trim (link_of encoded) ≡ link_of encoded =
      trim_solid (link_of encoded)
        (join_solid prefix entry ∙ ap (λ b. true && b) (join_solid "data=" encoded ∙ solid)) in
    let parts = split_one entry (join_one "data=" encoded ∙ one) in
    rw (whole, link_filled entry, strip_prefix-join prefix entry)
      (decode_query-entry lib encoded bytes text parts decoded read)
