-- ===== src/Topo/Version.antt =====
-- topo/version.go: the version of a server, four numbers of a byte each.
use Prim.Native.Char.{code}
use Prim.Native.String.{◌++◌ as str_append}
use percona_link_mongodb.Bson.{ℤ, pos, negsuc, Doc, Bytes, int}
use percona_link_mongodb.Prelude.{
  ℕ, ◌≡◌, refl, String, Bool, not, Option, none, some, [], ◌∷◌, nat_eqb, leb, string_eq,
  if◌then◌else◌,
}
use percona_link_mongodb.Errors.{Error, new}
use percona_link_mongodb.Exec.{Exec, Result, ok, fail, context, on_fail, ◌>>=◌}
use percona_link_mongodb.Bulk.Update.{atoi}

pub record ServerVersion : Type 0 where
  pub major : ℕ
  pub minor : ℕ
  pub patch : ℕ
  pub build : ℕ

unfoldable pub is_psmdb : ServerVersion → Bool
is_psmdb v = not (nat_eqb v.build 0)

-- Support.ClientBulkWrite
unfoldable pub client_bulk_write : ServerVersion → Bool
client_bulk_write v = leb 8 v.major

-- `decimal` is the verb %d.
module _ (decimal : ℕ → String) where
  abbrev dotted : ServerVersion → String
  dotted v =
      str_append (decimal v.major)
        (str_append "." (str_append (decimal v.minor) (str_append "." (decimal v.patch))))

  unfoldable pub to_string : ServerVersion → String
  to_string v =
      if nat_eqb v.build 0
      then dotted v
      else str_append (dotted v) (str_append "-" (decimal v.build))

  unfoldable pub full_string : ServerVersion → String
  full_string v =
      if nat_eqb v.build 0
      then str_append "MongoDB " (dotted v)
      else str_append "Percona Server for MongoDB "
          (str_append (dotted v) (str_append "-" (decimal v.build)))

-- InvalidVersionError
abbrev pub invalid_version : Error
invalid_version = new "invalid version"

-- strings.Cut at a byte: what is before it, and what is behind the first one if there is one.
unfoldable pub cut : ℕ → String → String × Option String
cut sep String.[] = ("", none)
cut sep (String.◌∷◌ c s) =
    let (before, behind) = cut sep s in
    if nat_eqb (code c) sep then ("", some s) else (String.◌∷◌ c before, behind)

-- strings.SplitN(s, ".", 3), none where that gives fewer parts.
unfoldable pub three_parts : String → Option (String × String × String)
unfolding cut
three_parts s = elim (cut b'.' s).1 [
  | none ↦ none
  | some t ↦ elim (cut b'.' t).1 [ none ↦ none | some u ↦ some ((cut b'.' s).0, (cut b'.' t).0, u) ]
]

unfoldable pub in_byte : ℤ → Option ℕ
in_byte (pos n) = if leb n 255 then some n else none
in_byte (negsuc n) = none

-- strconv.Atoi and the test for a uint8; the empty text is no number.
unfoldable pub byte_of : String → Option ℕ
unfolding atoi in_byte
byte_of s = if (atoi s).1 then in_byte (atoi s).0 else none

unfoldable pub build_of : Option String → Option ℕ
unfolding byte_of
build_of none = some 0
build_of (some s) = byte_of s

unfoldable pub version_of : Option ℕ → Option ℕ → Option ℕ → Option ℕ → Option ServerVersion
version_of (some a) (some b) (some c) (some d) =
    some (record { major = a; minor = b; patch = c; build = d })
version_of _ _ _ _ = none

unfoldable pub parts_version : Option (String × String × String) → Option ℕ → Option ServerVersion
unfolding version_of byte_of
parts_version none build = none
parts_version (some (a, b, c)) build = version_of (byte_of a) (byte_of b) (byte_of c) build

unfoldable pub parse_server_version : String → Option ServerVersion
unfolding cut three_parts parts_version build_of
parse_server_version s =
    let (server, build) = cut b'-' s in parts_version (three_parts server) (build_of build)

-- `text_of` is the field `version` of the answer.
module _ {W : Type 0} (run_command : String → Doc → Exec W Bytes) (text_of : Bytes → String) where
  unfoldable pub read_version : Option ServerVersion → Result ServerVersion
  read_version none = fail invalid_version
  read_version (some v) = ok v

  unfoldable pub version : Exec W ServerVersion
  unfolding ◌>>=◌ on_fail parse_server_version read_version
  version = do
    raw ← context "$buildInfo" (run_command "admin" (("buildInfo", int (pos 1)) ∷ []))
    λ w. (read_version (parse_server_version (text_of raw)), w)

percona_version :
    parse_server_version "8.0.4-1" ≡ some (record { major = 8; minor = 0; patch = 4; build = 1 })
unfolding parse_server_version
percona_version = refl

too_large : parse_server_version "8.256.4" ≡ none
unfolding parse_server_version
too_large = refl

two_numbers : parse_server_version "8.0-1" ≡ none
unfolding parse_server_version
two_numbers = refl
