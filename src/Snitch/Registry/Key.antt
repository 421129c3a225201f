-- ===== src/Snitch/Registry/Key.antt =====
-- The key of a point: which tags and metrics share one.
use mathlib.Core.List.{Permᴰ}
use gobol.Base.{ap, ◌≡◌, false, List, [], ◌∷◌, ◌++◌, append_assoc}
use gobol.Base.Text.{GoString, codes, str_lt}
use gobol.Base.Order.{str_lt-IsStrictOrder}
use gobol.Base.Sort.{sort, insert, sort-perm_self, map-perm}
use gobol.Snitch.Registry.{join, merge_tag, key_from_metric_id}

-- The key does not depend on the order in which the tags are visited.
pub key_from_metric_id-perm :
    (metric : GoString) {tags others : List (GoString × GoString)}
    → Permᴰ tags others
    → key_from_metric_id metric tags ≡ key_from_metric_id metric others
unfolding key_from_metric_id
key_from_metric_id-perm metric p =
    ap (λ l. join (codes ", ") (l ++ metric ∷ []))
      (sort-perm_self str_lt str_lt-IsStrictOrder (map-perm merge_tag p))

-- Two tags, the first of them not above the second, share their key with one tag whose value spells the
-- second tag behind ", ": points of different tags are one point.
pub key_from_metric_id-merges :
    (metric k v j w : GoString)
    → str_lt (merge_tag (j, w)) (merge_tag (k, v)) ≡ false
    → key_from_metric_id metric ((k, v) ∷ (j, w) ∷ [])
      ≡ key_from_metric_id metric ((k, v ++ codes ", " ++ merge_tag (j, w)) ∷ [])
unfolding key_from_metric_id sort join insert
key_from_metric_id-merges metric k v j w h = rw h (simp append_assoc)
