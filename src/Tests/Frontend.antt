-- ===== src/Tests/Frontend.antt =====
-- The client's library at concrete inputs.
use carbonledger.Base.{some, [], ◌∷◌, ◌≡◌, refl}
use carbonledger.Frontend.Cart.{Listing, Store, load_cart}
use carbonledger.Frontend.CartLaws.{IsKept, add, click, click-IsKept}
use carbonledger.Frontend.Stroops.{format_stroops, parse_stroops}
use carbonledger.Frontend.StroopsLaws.{parse_stroops-format_stroops}
use carbonledger.Base.Digits.{digits_from}

abbrev forest : Listing
forest = record { listing_id = "l1"; price_per_credit = 120 }

abbrev cart : Store
cart = record {
  items = record { listing = forest; amount = 3 } ∷ [];
  stored = some (record { listing = forest; amount = 3 } ∷ []);
}

cart-IsKept : IsKept cart
unfolding load_cart
cart-IsKept = record { single = (refl, tt); persisted = refl }

click-IsKept_example : IsKept (click (add forest 5) cart)
click-IsKept_example = click-IsKept (add forest 5) cart cart-IsKept

half_prints : format_stroops 25000000 ≡ b'2' ∷ b'.' ∷ b'5' ∷ []
unfolding format_stroops digits_from
half_prints = refl

parse_stroops-format_stroops_example : parse_stroops (format_stroops 1230045) ≡ some 1230045
parse_stroops-format_stroops_example = parse_stroops-format_stroops 1230045
