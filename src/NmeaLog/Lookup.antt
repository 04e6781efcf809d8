-- ===== src/NmeaLog/Lookup.antt =====
-- getTimeMcsFromArray of main.cpp after addNmeaLog.
use mathlib.Core.List.{append-nil, append_assoc}
use da_gis_service.Common.{
  ℕ, ◌≡◌, ◌≢◌, refl, ap, sym, ◌∙◌, Option, none, some, List, [], ◌∷◌, ◌++◌, arith, Bytes, eqb, All,
  ◌==◌, Bool-cases, inl, inr,
}
use da_gis_service.Outcome.{Outcome, ret, raise, ◌>>=◌}
use da_gis_service.NmeaLog.{
  Nmea, Conversions, get_field, add_lines, read_log, add_nmea_log, get_time_mcs_from_array,
}

module _ {Double : Type 0} where
  -- The first record of the frame.
  pub record FirstOf (file_id : ℕ) (log : List (Nmea Double)) (time : ℕ) : Type 0 where
    pub earlier : List (Nmea Double)
    pub found : Nmea Double
    pub later : List (Nmea Double)
    pub splits : log ≡ earlier ++ found ∷ later
    pub others : All (λ (n : Nmea Double). n.frame ≢ file_id) earlier
    pub has_frame : found.frame ≡ file_id
    pub has_time : found.xtime ≡ time

  -- What getTimeMcsFromArray comes to.
  abbrev pub Looked : ℕ → List (Nmea Double) → Option ℕ → Type 0
  Looked file_id log none = All (λ (n : Nmea Double). n.frame ≢ file_id) log
  Looked file_id log (some time) = FirstOf file_id log time

  Looked-cons :
      (file_id : ℕ) (n : Nmea Double) (log : List (Nmea Double)) (o : Option ℕ)
      → n.frame ≢ file_id
      → Looked file_id log o
      → Looked file_id (n ∷ log) o
  Looked-cons file_id n log none other h = (other, h)
  Looked-cons file_id n log (some time) other h = record {
    earlier = n ∷ h.earlier;
    found = h.found;
    later = h.later;
    splits = ap (λ t. n ∷ t) h.splits;
    others = (other, h.others);
    has_frame = h.has_frame;
    has_time = h.has_time;
  }

  get_time_mcs_from_array-Looked :
      (file_id : ℕ) (log : List (Nmea Double))
      → Looked file_id log (get_time_mcs_from_array file_id log)
  unfolding get_time_mcs_from_array
  get_time_mcs_from_array-Looked file_id [] = tt
  get_time_mcs_from_array-Looked file_id (n ∷ log) = elim (Bool-cases (n.frame == file_id)) [
    | inl e ↦ rw e (record {
      earlier = [];
      found = n;
      later = log;
      splits = refl;
      others = tt;
      has_frame = ground (arith, e);
      has_time = refl;
    })
    | inr e ↦ rw e (
        Looked-cons file_id n log (get_time_mcs_from_array file_id log) (ground (arith, e))
          (get_time_mcs_from_array-Looked file_id log))
  ]

  -- Records that come after one of the frame do not matter.
  get_time_mcs_from_array-append :
      (file_id time : ℕ) (log more : List (Nmea Double))
      → get_time_mcs_from_array file_id log ≡ some time
      → get_time_mcs_from_array file_id (log ++ more) ≡ some time
  unfolding get_time_mcs_from_array
  get_time_mcs_from_array-append file_id time [] more h = absurd cc
  get_time_mcs_from_array-append file_id time (n ∷ log) more h =
      elim (Bool-cases (n.frame == file_id)) [
        | inl e ↦ rw e (rw e at h)
        | inr e ↦ rw e (get_time_mcs_from_array-append file_id time log more (rw e at h))
      ]

ret-bind :
    {A B : Type 0} (o : Outcome A) (f : A → Outcome B) (b : B)
    → (o >>= f) ≡ ret b
    → (a : A) × (o ≡ ret a) × (f a ≡ ret b)
ret-bind (ret a) f b h = (a, refl, h)
ret-bind (raise e) f b h = absurd cc

module _ (v : Conversions) where
  -- The log after reading starts with the log before.
  abbrev Longer : List (Nmea v.Double) → List (Nmea v.Double) → Type 0
  Longer log after = (more : List (Nmea v.Double)) × (after ≡ log ++ more)

  add_lines-Longer :
      (lines : List Bytes) (log after : List (Nmea v.Double))
      → add_lines v lines log ≡ ret after
      → Longer log after
  unfolding add_lines
  add_lines-Longer [] log after h =
      (let same : log ≡ after = cc in ([], sym same ∙ sym (append-nil log)))
  add_lines-Longer (line ∷ lines) log after h = elim (Bool-cases (eqb line [])) [
    | inl e ↦ add_lines-Longer lines log after (rw e at h)
    | inr e ↦
        let (d, read, rest) =
          ret-bind (get_field v line) (λ d. add_lines v lines (log ++ d ∷ [])) after (rw e at h) in
        let (more, added) = add_lines-Longer lines (log ++ d ∷ []) after rest in
        (d ∷ more, added ∙ append_assoc log (d ∷ []) more)
  ]

  read_log-Longer :
      (file : Option (List Bytes)) (log after : List (Nmea v.Double))
      → read_log v file log ≡ ret after
      → Longer log after
  unfolding read_log
  read_log-Longer none log after h =
      (let same : log ≡ after = cc in ([], sym same ∙ sym (append-nil log)))
  read_log-Longer (some lines) log after h = add_lines-Longer lines log after h

  add_nmea_log-Longer :
      (open_file : Bytes → Option (List Bytes)) (path : Bytes) (log after : List (Nmea v.Double))
      → add_nmea_log v open_file path log ≡ ret after
      → Longer log after
  unfolding add_nmea_log
  add_nmea_log-Longer open_file path log after h = read_log-Longer _ log after h

  -- After a file has been read without an exception, getTimeMcsFromArray gives the time of the first record of
  -- the frame in the log, and none exactly if there is no such record, where the program returns a value
  -- that is not set. A time that it gave before it still gives.
  pub get_time_mcs_from_array-add_nmea_log :
      (open_file : Bytes → Option (List Bytes)) (path : Bytes) (log after : List (Nmea v.Double))
      (file_id : ℕ)
      → add_nmea_log v open_file path log ≡ ret after
      → Looked file_id after (get_time_mcs_from_array file_id after)
        × ((time : ℕ)
            → get_time_mcs_from_array file_id log ≡ some time
            → get_time_mcs_from_array file_id after ≡ some time)
  get_time_mcs_from_array-add_nmea_log open_file path log after file_id h =
      let (more, added) = add_nmea_log-Longer open_file path log after h in
      (
        get_time_mcs_from_array-Looked file_id after,
        λ time before. rw added (get_time_mcs_from_array-append file_id time log more before),
      )
