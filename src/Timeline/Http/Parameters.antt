-- ===== src/Timeline/Http/Parameters.antt =====
-- Which parameters of an item are its value, its timestamp and its tags.
use gobol.Base.{◌∙◌, ◌≡◌, ◌≢◌, inl, refl, Bool, true, false, not, List, [], ◌∷◌, ◌++◌, All}
use gobol.Base.Text.{GoString}
use gobol.Base.Int.{ℤ, pos}
use gobol.Base.Float.{Float64, float_zero}
use gobol.Hashing.Value.{Value, str, int, uint, float, bits8, bits64}
use gobol.Timeline.Config.{HttpConfig}
use gobol.Timeline.Point.{FlatOperation, json, json_ptr, FlattenerPoint, ok, panicked}
use gobol.Timeline.Http.Convert.{
  Scan, empty_scan, even, take_value, scan, to_point, point_of, to_item,
}
use gobol.Timeline.Http.Scan.{
  flat, extend, IsPlain, scan-flat, scan_value, scan_timestamp, scan_found, scan-cons,
  step_value_key,
}

module _ (c : HttpConfig) where
  abbrev value_pair : Float64 → List Value → List Value
  value_pair x vs = str c.value_property ∷ float bits64 x ∷ vs

  abbrev timestamp_pair : ℤ → List Value → List Value
  timestamp_pair n vs = str c.timestamp_property ∷ int bits64 n ∷ vs

  -- The parameters of an item, with tags around the value and the timestamp. The Boolean tells whether
  -- the timestamp stands before the value.
  abbrev pub with_tags :
      Bool
      → List (GoString × Value)
      → Float64
      → List (GoString × Value)
      → ℤ
      → List Value
      → List Value
  with_tags false before x between n rest =
      flat before ++ value_pair x (flat between ++ timestamp_pair n rest)
  with_tags true before x between n rest =
      flat before ++ timestamp_pair n (flat between ++ value_pair x rest)

  -- The tags before the first of the two properties are named like neither, those between the two not
  -- like the second; and where the timestamp stands first, the two have different names.
  abbrev pub AreTags : Bool → List (GoString × Value) → List (GoString × Value) → Type 0
  AreTags timestamp_first before between =
      All (λ p. IsPlain c false false p.0) before
      × All (λ p. IsPlain c (not timestamp_first) timestamp_first p.0) between
      × (timestamp_first ≡ true → c.timestamp_property ≢ c.value_property)

  abbrev found : Float64 → ℤ → List Value → Scan
  found x n l = record {
    value_found = true;
    timestamp_found = true;
    value = x;
    timestamp = n;
    parameters = l;
  }

  scan_item :
      (timestamp_first : Bool) (before between : List (GoString × Value)) (x : Float64) (n : ℤ)
      (rest : List Value)
      → AreTags timestamp_first before between
      → scan c (with_tags timestamp_first before x between n rest) even empty_scan
        ≡ ok (found x n ((flat before ++ flat between) ++ rest))
  scan_item false before between x n rest (hb, hm, d) =
      scan-flat c before _ empty_scan hb
      ∙ scan_value c x _ (extend empty_scan (flat before)) refl
      ∙ scan-flat c between _
          (record {
            value_found = true;
            timestamp_found = false;
            value = x;
            timestamp = pos 0;
            parameters = flat before;
          })
          hm
      ∙ scan_timestamp c n rest _ (λ e. absurd cc) refl
      ∙ scan_found c rest even (found x n (flat before ++ flat between)) (inl refl) refl refl
  scan_item true before between x n rest (hb, hm, d) =
      scan-flat c before _ empty_scan hb
      ∙ scan_timestamp c n _ (extend empty_scan (flat before)) (λ e. d refl) refl
      ∙ scan-flat c between _
          (record {
            value_found = false;
            timestamp_found = true;
            value = float_zero;
            timestamp = n;
            parameters = flat before;
          })
          hm
      ∙ scan_value c x rest _ refl
      ∙ scan_found c rest even (found x n (flat before ++ flat between)) (inl refl) refl refl

  -- An item with a float64 behind the value property, an int64 behind the timestamp property, in either
  -- order, and tags around them becomes a point with that value and timestamp that is hashed by the name, the operation
  -- and the tags; the item of that point has the tags, then the timestamp and the value.
  pub to_item-with_tags :
      (now : ℤ) (operation : FlatOperation) (name : GoString) (timestamp_first : Bool)
      (before between : List (GoString × Value)) (x : Float64) (n : ℤ) (rest : List Value)
      → AreTags timestamp_first before between
      → let tags = (flat before ++ flat between) ++ rest in
        (p : FlattenerPoint) × (to_point c now operation (
            json_ptr (record {
              name = name;
              parameters = with_tags timestamp_first before x between n rest;
            }))
          ≡ ok p)
        × (p.value ≡ x)
        × (p.timestamp ≡ n)
        × (p.hash_parameters ≡ str name ∷ uint bits8 operation ∷ tags)
        × (to_item c p
            ≡ ok (
                json (record {
                  name = name;
                  parameters =
                      tags
                      ++ str c.timestamp_property
                        ∷ int bits64 n
                        ∷ str c.value_property
                        ∷ float bits64 x
                        ∷ [];
                })))
  unfolding to_point to_item point_of
  to_item-with_tags now operation name timestamp_first before between x n rest h = (
    point_of operation now name (found x n ((flat before ++ flat between) ++ rest)),
    rw (scan_item timestamp_first before between x n rest h),
    refl,
    refl,
    refl,
    refl,
  )

  -- An item whose parameters end with the name of the value property, behind tags that are named
  -- like neither property, panics.
  pub to_point_panics :
      (now : ℤ) (operation : FlatOperation) (name : GoString) (before : List (GoString × Value))
      → All (λ p. IsPlain c false false p.0) before
      → to_point c now operation
          (json_ptr (record { name = name; parameters = flat before ++ str c.value_property ∷ [] }))
        ≡ panicked
  unfolding to_point
  to_point_panics now operation name before h =
      rw
        (scan-flat c before (str c.value_property ∷ []) empty_scan h
          ∙ scan-cons c _ [] even take_value _ _
              (step_value_key c (extend empty_scan (flat before)) refl))
        (unfold scan in refl)
