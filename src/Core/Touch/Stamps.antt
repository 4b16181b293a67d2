-- ===== src/Core/Touch/Stamps.antt =====
-- What `touch -t` reads in every timestamp that `formatTouchTArg` answers.
use adb_wfx_plugin.Base.{
  ℕ, ◌≤◌, ◌<◌, ◌+◌, ◌*◌, ◌-◌, ◌/◌, ◌%◌, ◌≡◌, ◌⊎◌, inl, inr, refl, Option, none, some, [], ◌∷◌,
  Bytes, sym, subst, ◌∙◌, arith, Option-cases, leb, ◌==◌, ap, Bool-cases, ◌&&◌, if◌then◌else◌,
}
use adb_wfx_plugin.Base.Int.{ℤ, pos, negsuc}
use adb_wfx_plugin.Core.Interface.{Tm}
use adb_wfx_plugin.Core.Touch.{
  ◌and_then◌, Stamp, check_fields, in_range, plus, stamp_text, format_touch_t_arg,
}

-- Two characters as decimal digits; `none` where one is no digit.
pub digit : ℕ → Option ℕ
digit c = if leb b'0' c && leb c b'9' then some (c - b'0') else none

pub two : ℕ → ℕ → Option ℕ
unfolding digit
two x y = digit x and_then λ a. digit y and_then λ b. some (10 * a + b)

-- `CCYYMMDDhhmm.ss`, as `touch -t` reads it.
pub read_stamp : Bytes → Option Stamp
unfolding two
read_stamp (c1 ∷ c2 ∷ y1 ∷ y2 ∷ m1 ∷ m2 ∷ d1 ∷ d2 ∷ h1 ∷ h2 ∷ n1 ∷ n2 ∷ dot ∷ s1 ∷ s2 ∷ []) =
    (if dot == b'.' then some tt else none) and_then λ u. two c1 c2 and_then λ century.
    two y1 y2 and_then λ year. two m1 m2 and_then λ month. two d1 d2 and_then λ day.
    two h1 h2 and_then λ hour. two n1 n2 and_then λ minute. two s1 s2 and_then λ second.
    some (record {
      year = 100 * century + year;
      month = month;
      day = day;
      hour = hour;
      minute = minute;
      second = second;
    })
read_stamp text = none

two_lem : (n : ℕ) → n < 100 → two (b'0' + n / 10 % 10) (b'0' + n % 10) ≡ some n
unfolding two digit
two_lem n h = ground arith

stamp_of : (year month day hour minute second : ℕ) → Stamp
stamp_of year month day hour minute second = record {
  year = year;
  month = month;
  day = day;
  hour = hour;
  minute = minute;
  second = second;
}

read_stamp-stamp_text :
    (year month day hour minute second : ℕ)
    → year < 10000
    → month < 100
    → day < 100
    → hour < 100
    → minute < 100
    → second < 100
    → let t = stamp_of year month day hour minute second in read_stamp (stamp_text t) ≡ some t
unfolding read_stamp stamp_text stamp_of
read_stamp-stamp_text year month day hour minute second hy hm hd hh hn hs =
    rw
      (
        two_lem (year / 100) (omega arith),
        two_lem (year % 100) (omega arith),
        two_lem month hm,
        two_lem day hd,
        two_lem hour hh,
        two_lem minute hn,
        two_lem second hs,
      )
      (ap (λ y. some (stamp_of y month day hour minute second)) (omega arith))

-- The date of `gmtime_r`, whose years count from 1900 and whose months from 0, with each field in its
-- range.
pub record IsDateOf (tm : Tm) (t : Stamp) : Type 0 where
  pub year : (pos t.year ≡ plus tm.tm_year 1900) × (1 ≤ t.year) × (t.year ≤ 9999)
  pub month : (pos t.month ≡ plus tm.tm_mon 1) × (1 ≤ t.month) × (t.month ≤ 12)
  pub day : (pos t.day ≡ tm.tm_mday) × (1 ≤ t.day) × (t.day ≤ 31)
  pub hour : (pos t.hour ≡ tm.tm_hour) × (t.hour ≤ 23)
  pub minute : (pos t.minute ≡ tm.tm_min) × (t.minute ≤ 59)
  pub second : (pos t.second ≡ tm.tm_sec) × (t.second ≤ 60)

pos-injective : {m n : ℕ} → pos m ≡ pos n → m ≡ n
pos-injective e = cc

-- A field: its number, or no number in the range.
in_range-cases :
    (lo hi : ℕ) (z : ℤ)
    → ((in_range lo hi z ≡ none) × ((n : ℕ) → pos n ≡ z → lo ≤ n → n ≤ hi → ⊥))
      ⊎ ((n : ℕ) × (in_range lo hi z ≡ some n) × (pos n ≡ z) × (lo ≤ n) × (n ≤ hi))
unfolding in_range
in_range-cases lo hi (pos n) = elim (Bool-cases (leb lo n && leb n hi)) [
  | inl e ↦ inr (n, rw e refl, refl, ground arith, ground arith)
  | inr e ↦
      inl (rw e refl, λ m same lo_le le_hi. ground (arith, pos-injective same, e, lo_le, le_hi))
]
in_range-cases lo hi (negsuc n) = inl (refl, λ m same lo_le le_hi. cc)

-- The checks pass exactly the dates in range.
fields :
    (tm : Tm)
    → ((check_fields tm ≡ none) × ((t : Stamp) → IsDateOf tm t → ⊥))
      ⊎ ((t : Stamp) × (check_fields tm ≡ some t)
          × (read_stamp (stamp_text t) ≡ some t)
          × IsDateOf tm t)
unfolding check_fields
fields tm = elim (in_range-cases 1 9999 (plus tm.tm_year 1900)) [
  | inl (e, out) ↦ inl (rw (e) refl, λ t p. out t.year p.year.0 p.year.1 p.year.2)
  | inr (y, ey, py, ay, by) ↦ elim (in_range-cases 1 12 (plus tm.tm_mon 1)) [
    | inl (e, out) ↦ inl (rw (ey, e) refl, λ t p. out t.month p.month.0 p.month.1 p.month.2)
    | inr (m, em, pm, am, bm) ↦ elim (in_range-cases 1 31 tm.tm_mday) [
      | inl (e, out) ↦ inl (rw (ey, em, e) refl, λ t p. out t.day p.day.0 p.day.1 p.day.2)
      | inr (d, ed, pd, ad, bd) ↦ elim (in_range-cases 0 23 tm.tm_hour) [
        | inl (e, out) ↦
            inl (rw (ey, em, ed, e) refl, λ t p. out t.hour p.hour.0 (omega arith) p.hour.1)
        | inr (h, eh, ph, ah, bh) ↦ elim (in_range-cases 0 59 tm.tm_min) [
          | inl (e, out) ↦
              inl (
                rw (ey, em, ed, eh, e) refl,
                λ t p. out t.minute p.minute.0 (omega arith) p.minute.1,
              )
          | inr (n, en, pn, an, bn) ↦ elim (in_range-cases 0 60 tm.tm_sec) [
            | inl (e, out) ↦ inl (
              rw (ey, em, ed, eh, en, e) refl,
              λ t p. out t.second p.second.0 (omega arith) p.second.1,
            )
            | inr (s, es, ps, a_s, bs) ↦ inr (
              stamp_of y m d h n s,
              unfold stamp_of in rw (ey, em, ed, eh, en, es) refl,
              read_stamp-stamp_text y m d h n s (omega arith) (omega arith) (omega arith)
                  (omega arith) (omega arith) (omega arith),
              unfold stamp_of in
                  record {
                    year = (py, ay, by);
                    month = (pm, am, bm);
                    day = (pd, ad, bd);
                    hour = (ph, bh);
                    minute = (pn, bn);
                    second = (ps, bs);
                  },
            )
          ]
        ]
      ]
    ]
  ]
]

-- Where there is a text, `touch -t` reads from it the date that `gmtime_r` answered, 1900 added to the
-- year and 1 to the month, with every field in its range. There is none only where `gmtime_r` fails or a
-- field of its date lies out of its range.
pub format_touch_t_arg-read_stamp :
    (gmtime : ℤ → Option Tm) (epoch_seconds : ℤ)
    → ((text : Bytes) × (tm : Tm) × (t : Stamp) × (format_touch_t_arg gmtime epoch_seconds
          ≡ some text)
        × (gmtime epoch_seconds ≡ some tm)
        × (read_stamp text ≡ some t)
        × IsDateOf tm t)
      ⊎ ((format_touch_t_arg gmtime epoch_seconds ≡ none)
          × ((tm : Tm) → gmtime epoch_seconds ≡ some tm → (t : Stamp) → IsDateOf tm t → ⊥))
unfolding format_touch_t_arg
format_touch_t_arg-read_stamp gmtime epoch_seconds = elim (Option-cases (gmtime epoch_seconds)) [
  | inl h ↦ inr (rw h refl, λ tm e. cc)
  | inr (tm, h) ↦ elim (fields tm) [
    | inl (e, out) ↦
        inr (
          rw (h, e) refl,
          λ tm' e' t p. out t (subst (λ u. IsDateOf u t) (same_date (sym e' ∙ h)) p),
        )
    | inr (t, e, back, p) ↦ inl (stamp_text t, tm, t, rw (h, e) refl, h, back, p)
  ]
]
  where
    same_date : {a b : Tm} → (let o : Option Tm = some a in o ≡ some b) → a ≡ b
    same_date e = cc
