-- ===== src/Url/Tests.antt =====
-- Inputs for the theorems on `unquote_url_inplace` of bjoern/common.c, and tests of it.
use bjoern.Common.{
  ℕ, ◌≤◌, ◌<◌, ◌≡◌, refl, Bool, codes, ◌++◌, ◌∷◌, [], not, ◌==◌, arith, length, take, All,
}
use bjoern.Url.{unquote_url_inplace, unhex}
use bjoern.Url.Decode.{decode}
use bjoern.Url.InPlace.{Agrees, unquote_url_inplace-decode}
use bjoern.Url.Laws.{
  quote, unquote_url_inplace-quote, unquote_url_inplace_bounds, unquote_url_inplace_cut,
}

decoded : unquote_url_inplace (codes "/a%20b") ≡ (4, codes "/a b0b")
unfolding unquote_url_inplace unhex
decoded = refl

refused : (unquote_url_inplace (codes "/a%2g")).0 ≡ 0
unfolding unquote_url_inplace unhex
refused = refl

unquote_url_inplace-decode_example :
    Agrees (decode (codes "/%41b")) [] (unquote_url_inplace (codes "/%41b"))
unquote_url_inplace-decode_example = unquote_url_inplace-decode (codes "/%41b")

abbrev plain : ℕ → Bool
plain c = not (c == b'%')

unquote_url_inplace-quote_example :
    let r = unquote_url_inplace (quote plain (codes "100%")) in
    (r.0 ≡ length (codes "100%")) × (take r.0 r.1 ≡ codes "100%")
unquote_url_inplace-quote_example =
    unquote_url_inplace-quote plain (codes "100%") refl (omega arith)

unquote_url_inplace_bounds_example :
    let r = unquote_url_inplace (codes "/%ff") in
    (r.0 ≤ length (codes "/%ff")) × All (λ c. c < 256) (take r.0 r.1)
unquote_url_inplace_bounds_example = unquote_url_inplace_bounds (codes "/%ff") (omega arith)

unquote_url_inplace_cut_example : (unquote_url_inplace (codes "/caf" ++ b'%' ∷ codes "c")).0 ≡ 0
unquote_url_inplace_cut_example = unquote_url_inplace_cut (codes "/caf") (codes "c") (omega arith)
