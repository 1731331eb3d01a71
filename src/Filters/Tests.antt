-- ===== src/Filters/Tests.antt =====
-- The theorems on src/io_board/filters.py at concrete readings.
use crk_io_board.Base.{◌≡◌, refl, none, some, codes, length}
use crk_io_board.Base.Int.{pos, neg_ℤ}
use crk_io_board.Readings.{parse_value, is_error_value, float}
use crk_io_board.Numbers.{ratio, tenths}
use crk_io_board.Numbers.Binary64.{binary64}
use crk_io_board.Filters.{
  FilterKwargs, create_filter, exponential, format_value, filter, filter_exponential,
}
use crk_io_board.Filters.Format.{shown_magnitude, parse_value-format_value}

abbrev default_kwargs : FilterKwargs
default_kwargs = record { alpha = none; q = none; r = none }

abbrev tuned : FilterKwargs
tuned = record { alpha = some (binary64 (ratio 3 10)); q = none; r = some (ratio 1 2) }

-- From 100 g, three tenths of the way to 200 g.
smoothed_130 :
    (filter (filter (create_filter exponential tuned) (codes "+00100")).1 (codes "+00200")).0.0
    ≡ codes "+130.0"
unfolding binary64 filter filter_exponential create_filter format_value tenths parse_value
    is_error_value float
smoothed_130 = refl

parse_value-format_value_example :
    (length (format_value (record { plus = 0; minus = 2491; under = 20 })) ≡ 6)
    × (parse_value (format_value (record { plus = 0; minus = 2491; under = 20 }))
        ≡ some (neg_ℤ (pos (shown_magnitude 1246))))
unfolding tenths
parse_value-format_value_example =
    parse_value-format_value (record { plus = 0; minus = 2491; under = 20 })

-- Two readings of 3 g, with the default weight, are smoothed to more than 3 g.
smoothed_above_test :
    (filter
      (filter (create_filter exponential default_kwargs) (codes "+00003")).1
      (codes "+00003")).0.1
    ≡ some (record { plus = 6755399441055745; minus = 0; under = 2251799813685248 })
unfolding binary64 filter filter_exponential create_filter parse_value is_error_value float
smoothed_above_test = refl
