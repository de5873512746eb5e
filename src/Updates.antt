-- ===== src/Updates.antt =====
-- internal/updatecheck/checker.go: the comparison of versions, and what is made of GitHub's answer.
-- The request itself is an argument: what it gave.
use Prim.Native.Char.{Char, code}
use Prim.Native.String.{◌++◌ as append}
use beacon_desk.Prelude.{
  ℕ, ◌+◌, ◌-◌, ◌*◌, ◌≡◌, String, Bool, true, false, ◌||◌, Option, none, some, List, [], ◌∷◌, ◌==◌,
  ◌=ℕ◌, ltb, leb, ◌>>=◌, if◌then◌else◌, trim_space, is_digit, arith, refl, ap,
}
use beacon_desk.Prelude.Int.{ℤ, pos, negsuc, int64_limit, sub_ℤ}

-- `strings.TrimPrefix` of one letter.
abbrev pub trim_letter : ℕ → String → String
trim_letter letter String.[] = String.[]
trim_letter letter (String.◌∷◌ c s) = if code c =ℕ letter then s else String.◌∷◌ c s

-- What stands before the first "+" or "-".
unfoldable pub before_sign : String → String
before_sign String.[] = String.[]
before_sign (String.◌∷◌ c s) =
    let rest = before_sign s in
    if code c =ℕ b'+' || code c =ℕ b'-' then String.[] else String.◌∷◌ c rest

abbrev pub add_to_head : Char → List String → List String
add_to_head c [] = String.◌∷◌ c String.[] ∷ []
add_to_head c (s ∷ rest) = String.◌∷◌ c s ∷ rest

-- `strings.Split` at the dots.
unfoldable pub split_dots : String → List String
split_dots String.[] = String.[] ∷ []
split_dots (String.◌∷◌ c s) =
    let rest = split_dots s in if code c =ℕ b'.' then String.[] ∷ rest else add_to_head c rest

-- `strconv.Atoi` of a text that has no sign.
unfoldable pub digits_value : ℕ → String → Option ℕ
digits_value value String.[] = some value
digits_value value (String.◌∷◌ c s) =
    let rest = digits_value (value * 10 + (code c - b'0')) s in
    if is_digit (code c) then rest else none

unfoldable pub parse_part : String → Option ℕ
parse_part part = if part == "" then none else elim (digits_value 0 part) [
  | none ↦ none
  | some n ↦ if ltb n int64_limit then some n else none
]

pub record Version : Type 0 where
  pub major : ℕ
  pub minor : ℕ
  pub patch : ℕ

abbrev pub version : ℕ → ℕ → ℕ → Version
version major minor patch = record { major = major; minor = minor; patch = patch }

-- The loop over the parts, of which there are three at most.
unfoldable pub version_of : List String → Option Version
version_of (a ∷ []) = do x ← parse_part a; some (version x 0 0)
version_of (a ∷ b ∷ []) = do x ← parse_part a; y ← parse_part b; some (version x y 0)
version_of (a ∷ b ∷ c ∷ []) = do
  x ← parse_part a
  y ← parse_part b
  z ← parse_part c
  some (version x y z)
version_of _ = none

unfoldable pub parse_version : String → Option Version
parse_version v =
    let bare = trim_letter b'V' (trim_letter b'v' (trim_space v)) in
    if bare == "" || bare == "dev" || bare == "none" || bare == "unknown"
    then none
    else version_of (split_dots (before_sign bare))

-- The loop of `CompareVersions`.
unfoldable pub compare_parts : Version → Version → ℤ
compare_parts a b =
    if ltb a.major b.major
    then negsuc 0
    else if ltb b.major a.major
    then pos 1
    else if ltb a.minor b.minor
    then negsuc 0
    else if ltb b.minor a.minor
    then pos 1
    else if ltb a.patch b.patch
    then negsuc 0
    else if ltb b.patch a.patch
    then pos 1
    else pos 0

-- `CompareVersions`, which gives nothing where the source gives `0, false`.
unfoldable pub compare_versions : String → String → Option ℤ
compare_versions current latest = do
  left ← parse_version current
  right ← parse_version latest
  some (compare_parts left right)

pub record UpdateOptions : Type 0 where
  pub owner : String
  pub repo : String
  pub current_version : String

-- A release of GitHub; `published_at` is nanoseconds since the epoch.
pub record GithubRelease : Type 0 where
  pub tag_name : String
  pub name : String
  pub html_url : String
  pub published_at : ℤ

pub record UpdateResult : Type 0 where
  pub current_version : String
  pub latest_version : String
  pub latest_name : String
  pub release_url : String
  pub published_at : ℤ
  pub needs_update : Bool
  pub comparable : Bool

-- What the request gave: an error, or a status with a body, which may not decode.
pub data Fetched : Type 0 where
  unreachable : Fetched
  answered : ℕ → Option GithubRelease → Fetched

pub data Latest : Type 0 where
  latest_is : UpdateResult → Latest
  request_failed : Latest
  no_release : Latest
  bad_status : ℕ → Latest
  undecodable : Latest
  no_tag : Latest

-- The URL of the request, with the owner and the repository that are asked for by default.
abbrev pub latest_url : UpdateOptions → String
latest_url opts = append "https://api.github.com/repos/" (
    append (if opts.owner == "" then "poouo" else opts.owner) (
      append "/" (append (if opts.repo == "" then "BeaconDesk" else opts.repo) "/releases/latest")))

unfoldable pub release_result : String → GithubRelease → Latest
release_result current release =
    let compared = compare_versions current release.tag_name in
    if release.tag_name == ""
    then no_tag
    else latest_is (record {
      current_version = current;
      latest_version = release.tag_name;
      latest_name = release.name;
      release_url = release.html_url;
      published_at = release.published_at;
      needs_update = elim compared [ none ↦ false | some z ↦ is_negative z ];
      comparable = elim compared [ none ↦ false | some z ↦ true ];
    })
  where
    is_negative : ℤ → Bool
    is_negative (pos n) = false
    is_negative (negsuc n) = true

-- `Latest`, after the request for `latest_url`.
unfoldable pub latest : UpdateOptions → Fetched → Latest
latest opts unreachable = request_failed
latest opts (answered status body) =
    if status =ℕ 404
    then no_release
    else if ltb status 200 || leb 300 status
    then bad_status status
    else elim body [
      | none ↦ undecodable
      | some release ↦ release_result opts.current_version release
    ]

compare_parts-swap : (a b : Version) → compare_parts b a ≡ sub_ℤ (pos 0) (compare_parts a b)
unfolding compare_parts
compare_parts-swap a b = ground arith

-- The comparison the other way round gives the opposite number, or nothing, too.
pub compare_versions-swap :
    (current latest : String)
    → compare_versions latest current
      ≡ elim (compare_versions current latest) [ none ↦ none | some z ↦ some (sub_ℤ (pos 0) z) ]
unfolding compare_versions
compare_versions-swap current latest = swap (parse_version current) (parse_version latest)
  where
    swap :
        (a b : Option Version)
        → (b >>= λ x. a >>= λ y. some (compare_parts x y))
          ≡ elim (a >>= λ x. b >>= λ y. some (compare_parts x y)) [
            | none ↦ none
            | some z ↦ some (sub_ℤ (pos 0) z)
          ]
    swap none none = refl
    swap none (some b) = refl
    swap (some a) none = refl
    swap (some a) (some b) = ap some (compare_parts-swap a b)
