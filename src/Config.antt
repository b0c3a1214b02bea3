-- ===== src/Config.antt =====
-- config/settings (base.py, development.py, production.py, testing.py): the hosts that the site answers
-- for and the origins that it trusts. How django-environ splits a variable into a list is an argument,
-- as the list that it gives.
use text.Mathlib.Text.{◌==◌ as str_eq}
use text.Mathlib.TextEquality.{eq_iff}
use mbarara_auction.Prelude.{
  arith, Bool-cases, inl, inr, ◌≡◌, refl, String, ◌++◌, Bool, true, false, not, ◌&&◌, ◌||◌, List,
  [], ◌∷◌, if◌then◌else◌, is_empty,
}

pub data Settings : Type 0 where
  development testing production : Settings

abbrev pub is_among : String → List String → Bool
is_among text [] = false
is_among text (t ∷ ts) = str_eq text t || is_among text ts

-- `list.append`
abbrev pub add_last : String → List String → List String
add_last text [] = text ∷ []
add_last text (t ∷ ts) = t ∷ add_last text ts

-- ALLOWED_HOSTS of base.py, from the variable of that name and RENDER_EXTERNAL_HOSTNAME
unfoldable pub base_hosts : List String → String → List String
base_hosts hosts render_host =
    if not (is_empty render_host) && not (is_among render_host hosts)
    then add_last render_host hosts
    else hosts

-- CSRF_TRUSTED_ORIGINS
unfoldable pub trusted_origins : List String → String → List String
trusted_origins origins render_host =
    if is_empty render_host
    then origins
    else let render_origin = "https://" ++ render_host in
      if not (is_among render_origin origins) then add_last render_origin origins else origins

-- ALLOWED_HOSTS of each environment
unfoldable pub allowed_hosts : Settings → List String → String → List String
unfolding base_hosts
allowed_hosts Settings.development hosts render_host = "localhost" ∷ "127.0.0.1" ∷ []
allowed_hosts Settings.testing hosts render_host = base_hosts hosts render_host
allowed_hosts Settings.production hosts render_host =
    add_last ".onrender.com" (base_hosts hosts render_host)

module _ (text : String) where
  is_among-here : (ts : List String) → is_among text (add_last text ts) ≡ true
  is_among-here [] = rw ((eq_iff text text).1 refl) refl
  is_among-here (t ∷ ts) = elim (Bool-cases (str_eq text t)) [
    | inl same ↦ rw same refl
    | inr other ↦ rw (other, is_among-here ts) refl
  ]

  is_among-later :
      (other : String) (ts : List String)
      → is_among text ts ≡ true
      → is_among text (add_last other ts) ≡ true
  is_among-later other [] h = ground arith
  is_among-later other (t ∷ ts) h = ground (arith, is_among-later other ts)

base_hosts-is_among :
    (hosts : List String) (render_host : String)
    → is_empty render_host ≡ false
    → is_among render_host (base_hosts hosts render_host) ≡ true
unfolding base_hosts
base_hosts-is_among hosts render_host named = elim (Bool-cases (is_among render_host hosts)) [
  | inl there ↦ rw (named, there) there
  | inr missing ↦ rw (named, missing) (is_among-here render_host hosts)
]

-- On a deployment that has a name, the site answers for the name and trusts its https origin,
-- whatever the two variables say.
pub allowed_hosts-is_among :
    (hosts origins : List String) (render_host : String)
    → is_empty render_host ≡ false
    → (is_among render_host (allowed_hosts Settings.production hosts render_host) ≡ true)
      × (is_among ("https://" ++ render_host) (trusted_origins origins render_host) ≡ true)
unfolding allowed_hosts trusted_origins
allowed_hosts-is_among hosts origins render_host named = (
  is_among-later render_host ".onrender.com" _ (base_hosts-is_among hosts render_host named),
  elim (Bool-cases (is_among ("https://" ++ render_host) origins)) [
    | inl there ↦ rw (named, there) there
    | inr missing ↦ rw (named, missing) (is_among-here _ origins)
  ],
)
