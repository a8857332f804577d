-- ===== src/Translator/Dates.antt =====
-- `datetime.fromtimestamp(seconds, tz=UTC).isoformat(timespec="seconds")`, without the offset.
use mopidy_mpd.Prelude.{ℕ, ◌+◌, ◌-◌, ◌*◌, ◌/◌, ◌%◌, Text, codes, [], ◌∷◌, ◌++◌, ltb, if◌then◌else◌}

-- Two digits.
unfoldable pub two_digits : ℕ → Text
two_digits n = (48 + n / 10) ∷ (48 + n % 10) ∷ []

-- The civil date of a day since the start of 1970, by eras of 400 years that start in March.
unfoldable pub civil : ℕ → ℕ × ℕ × ℕ
civil days =
    let z = days + 719468 in
    let era = z / 146097 in
    let doe = z % 146097 in
    let yoe = (doe - doe / 1460 + doe / 36524 - doe / 146096) / 365 in
    let doy = doe - (365 * yoe + yoe / 4 - yoe / 100) in
    let mp = (5 * doy + 2) / 153 in
    let day = doy - (153 * mp + 2) / 5 + 1 in
    let month = if ltb mp 10 then mp + 3 else mp - 9 in
    let year = yoe + era * 400 + (if ltb month 3 then 1 else 0) in (year, month, day)

unfoldable pub iso_format : ℕ → Text
unfolding two_digits civil
iso_format seconds =
    let (year, month, day) = civil (seconds / 86400) in
    let rest = seconds % 86400 in
    two_digits (year / 100)
    ++ (two_digits (year % 100)
        ++ (codes "-"
            ++ (two_digits month
                ++ (codes "-"
                    ++ (two_digits day
                        ++ (codes "T"
                            ++ (two_digits (rest / 3600)
                                ++ (codes ":"
                                    ++ (two_digits (rest / 60 % 60)
                                        ++ (codes ":" ++ two_digits (rest % 60)))))))))))
