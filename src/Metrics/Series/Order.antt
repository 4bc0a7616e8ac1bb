-- ===== src/Metrics/Series/Order.antt =====
-- internal/metrics/series.go: the order of the samples (`Build` with its sort, `labelKey`).
use mathlib.Core.List.{Perm}
use ghostgpu.Base.{
  Bool, true, List, [], ◌∷◌, ◌++◌, ◌≡◌, arith, if◌then◌else◌, Text, text_eq, ◌==◌, sort_by,
  IsSorted, sort_by-IsSorted, sort_by-perm, false,
}
use ghostgpu.Base.Dict.{keys, get_or, lookup}
use ghostgpu.Text.Split.{text_leb, text_leb-total}
use ghostgpu.Api.{Labels}
use ghostgpu.Metrics.Cards.{Card}
use ghostgpu.Metrics.Series.{Series, build_series}

-- The loop over the keys, in order.
unfoldable pub key_text : Labels → List Text → Text
unfolding lookup
key_text labels [] = []
key_text labels (k ∷ ks) = k ++ (b'=' ∷ (get_or k labels [] ++ (b',' ∷ key_text labels ks)))

unfoldable pub label_key : Labels → Text
unfolding key_text sort_by text_leb
label_key labels = key_text labels (sort_by text_leb (keys labels))

-- `cmp.Compare` of the names, then of the keys of the labels.
unfoldable pub series_before : Series → Series → Bool
unfolding label_key text_leb text_eq
series_before a b =
    if a.name == b.name
    then text_leb (label_key a.labels) (label_key b.labels)
    else text_leb a.name b.name

unfoldable pub build : List Card → List Series
unfolding build_series sort_by series_before
build cards = sort_by series_before (build_series cards)

series_before-total : (a b : Series) → series_before a b ≡ false → series_before b a ≡ true
unfolding series_before
series_before-total a b =
    let on_name = text_leb-total a.name b.name in
    let on_key = text_leb-total (label_key a.labels) (label_key b.labels) in
    ground (arith, on_name, on_key)

-- The samples of a scrape are in order, and they are those that the cards give, each as often.
pub build-IsSorted :
    (cards : List Card)
    → IsSorted series_before (build cards) × Perm (build cards) (build_series cards)
unfolding build
build-IsSorted cards = (
  sort_by-IsSorted series_before series_before-total (build_series cards),
  sort_by-perm series_before (build_series cards),
)
