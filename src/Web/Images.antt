-- ===== src/Web/Images.antt =====
-- apps/listings/forms.py and models.py: the rule for an uploaded image and the path that it gets.
use text.Mathlib.Text.{◌==◌ as str_eq}
use mbarara_auction.Prelude.{
  ℕ, ◌*◌, ◌≤◌, ◌≡◌, String, ◌++◌, Bool, false, not, ◌&&◌, Option, none, some, List, [], ◌∷◌, ltb,
  if◌then◌else◌, is_empty, any, decimal, arith, ◌↔◌,
}

abbrev allowed_image_types : List String
allowed_image_types = "image/jpeg" ∷ "image/png" ∷ "image/webp" ∷ []

-- MAX_IMAGE_SIZE_BYTES
abbrev pub max_image_size_bytes : ℕ
max_image_size_bytes = 5 * 1024 * 1024

-- what the browser says about a file: it may leave its type out
pub record Upload : Type 0 where
  pub content_type : Option String
  pub size : ℕ

-- the two texts of clean_image's ValidationError
pub data ImageError : Type 0 where
  wrong_type too_large : ImageError

-- `content_type and content_type not in ALLOWED_IMAGE_TYPES`
abbrev pub is_wrong_type : Option String → Bool
is_wrong_type none = false
is_wrong_type (some text) =
    not (is_empty text) && not (any (λ t. str_eq text t) allowed_image_types)

-- `clean_image`: what is wrong, if anything
unfoldable pub clean_image : Upload → Option ImageError
clean_image u =
    if is_wrong_type u.content_type
    then some ImageError.wrong_type
    else if ltb max_image_size_bytes u.size
    then some ImageError.too_large
    else none

unfoldable pub auction_image_path : ℕ → String → String
auction_image_path auction filename = "auctions/" ++ (decimal auction ++ ("/" ++ filename))

-- An image that clean_image lets through is at most 5 MiB, and 5 MiB are let through.
pub clean_image-size :
    (u : Upload)
    → is_wrong_type u.content_type ≡ false
    → (clean_image u ≡ none) ↔ (u.size ≤ max_image_size_bytes)
unfolding clean_image
clean_image-size u right = (ground arith, ground arith)
