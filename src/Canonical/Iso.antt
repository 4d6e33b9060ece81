-- ===== src/Canonical/Iso.antt =====
-- Date.prototype.toISOString, for milliseconds since 1970 up to the year 9999.
use secure_document_manageme.Prelude.{
  ℕ, ◌+◌, ◌-◌, ◌*◌, ◌/◌, ◌%◌, ◌≡◌, refl, List, [], ◌∷◌, ◌++◌, ltb, if◌then◌else◌,
}
use secure_document_manageme.Canonical.{codes}

two_digits : ℕ → List ℕ
two_digits n = (b'0' + n / 10) ∷ (b'0' + n % 10) ∷ []

three_digits : ℕ → List ℕ
unfolding two_digits
three_digits n = (b'0' + n / 100) ∷ two_digits (n % 100)

four_digits : ℕ → List ℕ
unfolding two_digits
four_digits n = two_digits (n / 100) ++ two_digits (n % 100)

pub record Day : Type 0 where
  pub year : ℕ
  pub month : ℕ
  pub day : ℕ

-- The day of the Gregorian calendar that lies `days` days after 1970-01-01, by 400-year eras that
-- begin in March.
civil : ℕ → Day
civil days =
    let z : ℕ = days + 719468 in
    let e : ℕ = z % 146097 in
    let y : ℕ = (e + e / 36524 - e / 1460 - e / 146096) / 365 in
    let d : ℕ = e + y / 100 - (365 * y + y / 4) in
    let m : ℕ = (5 * d + 2) / 153 in
    record {
      year = y + z / 146097 * 400 + (if ltb m 10 then 0 else 1);
      month = if ltb m 10 then m + 3 else m - 9;
      day = d - (153 * m + 2) / 5 + 1;
    }

unfoldable pub to_iso_string : ℕ → List ℕ
unfolding civil two_digits three_digits four_digits
to_iso_string ms =
    let c : Day = civil (ms / 86400000) in
    let s : ℕ = ms / 1000 in
    four_digits c.year
    ++ (b'-'
        ∷ (two_digits c.month
            ++ (b'-'
                ∷ (two_digits c.day
                    ++ (b'T'
                        ∷ (two_digits (s / 3600 % 24)
                            ++ (b':'
                                ∷ (two_digits (s / 60 % 60)
                                    ++ (b':'
                                        ∷ (two_digits (s % 60)
                                            ++ (b'.'
                                                ∷ (three_digits (ms % 1000) ++ b'Z' ∷ []))))))))))))

to_iso_string_test : to_iso_string 1725600011042 ≡ codes "2024-09-06T05:20:11.042Z"
unfolding to_iso_string
to_iso_string_test = refl

to_iso_string_leap : to_iso_string 951782400000 ≡ codes "2000-02-29T00:00:00.000Z"
unfolding to_iso_string
to_iso_string_leap = refl
