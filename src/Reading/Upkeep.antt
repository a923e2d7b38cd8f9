-- ===== src/Reading/Upkeep.antt =====
-- `upsertRecord` and `deleteRecord` of reading.service.ts keep the passport's count and the mirror.
use arktion_sui_overflow.Prelude.{
  arith, ℕ, update_where, not, inr, some, if◌then◌else◌, refl, ◌≡◌, ◌&&◌, inl, Option-cases, Option,
  none, false, ◌+◌, true, gets, when, Result, Bool, or_throw, ok, err, ◌>>=◌, Bool-cases, ◌⊎◌,
}
use arktion_sui_overflow.Reading.Progress.{
  write_progress, delete_record, update_passport, upsert_reading, progress, is_record, Progress,
  find_reading, UpsertReadingRecordDto,
}
use arktion_sui_overflow.World.{
  World, ReadingStatus, ReadingRecord, Service, Error, record_not_found, User,
}
use arktion_sui_overflow.Reading.Tracking.{IsTracked, count-update, count-delete, records_of}
use arktion_sui_overflow.Reading.Rewards.{
  follow_progress, logged, check_and_fire_milestones, upsert_record, is_known,
}
use arktion_sui_overflow.Reading.Keeps.{IsOwn, Keeps, Keeps-refl}
use arktion_sui_overflow.Ink.Mirror.{IsMirrored}
use arktion_sui_overflow.Reading.Effects.{check_and_fire_milestones-Keeps}

write_progress-IsTracked :
    (user wallet series : ℕ) (status : ReadingStatus) (chapter now : ℕ) (w : World)
    → IsTracked w.db
    → IsTracked (write_progress (progress user wallet series status chapter w) now w).1.db
unfolding write_progress update_passport upsert_reading progress
write_progress-IsTracked user wallet series status chapter now w t = record {
  tracked = λ u q h. elim (Option-cases (w.db.passports user)) [
    | inl e ↦ ground (arith, t.tracked u q, e, kept u)
    | inr (p, e) ↦ ground (arith, t.tracked u q, t.tracked user p e, e, kept u)
  ];
}
  where
    f : ReadingRecord → ReadingRecord
    f r =
        let pr = progress user wallet series status chapter w in
        record r {
          status = pr.status;
          current_chapter = pr.after;
          last_read_at = now;
          completed_at =
              if not pr.was_completed && pr.now_completed then some now else r.completed_at;
        }

    kept :
        (u : ℕ)
        → records_of u (update_where (is_record user series) f w.db.reading_records)
          ≡ records_of u w.db.reading_records
    kept u = count-update u user series f w.db.reading_records (λ r. refl)

-- After deleteRecord, a passport still counts its user's records.
pub delete_record-IsTracked :
    (user series : ℕ) (w : World) → IsTracked w.db → IsTracked (delete_record user series w).1.db
unfolding delete_record update_passport
delete_record-IsTracked user series w t = record {
  tracked = λ u q h. elim (Option-cases (w.db.passports user)) [
    | inl e ↦ ground (arith, t.tracked u q, e)
    | inr (p, e) ↦ ground (
      arith,
      t.tracked u q,
      t.tracked user p e,
      e,
      count-delete u user series w.db.reading_records,
    )
  ];
}

-- What follows a step that leaves the same things alone.
rest-Keeps :
    {B : Type 0} (m : Service (Unit {0})) (k : Unit {0} → Service B) (w : World)
    → ((a : Unit {0}) → Keeps (m w).1 (k a (m w).1).1)
    → Keeps (m w).1 ((m >>= k) w).1
rest-Keeps {B} m k w rest = go (m w).0 (m w).1 rest
  where
    go :
        (r : Result Error (Unit {0})) (v : World)
        → ((a : Unit {0}) → Keeps v (k a v).1)
        → let out : Result Error B × World = elim r [ ok a ↦ k a v | err e ↦ (err e, v) ] in
          Keeps v out.1
    go (ok a) v y = y a
    go (err e) v y = Keeps-refl v

or_throw-world : {A : Type 0} (o : Option A) (e : Error) (v : World) → (or_throw o e v).1 ≡ v
or_throw-world none e v = refl
or_throw-world (some a) e v = refl

follow_progress-Keeps :
    (p : Progress) (now : ℕ) (w : World)
    → IsOwn p (write_progress p now w).1
    → Keeps (write_progress p now w).1 (follow_progress p now w).1
unfolding follow_progress
follow_progress-Keeps p now w own =
    rest-Keeps (write_progress p now)
      (λ _. logged (check_and_fire_milestones p now) >>= λ _.
        gets (find_reading p.user_id p.series_id) >>= λ row. or_throw row record_not_found)
      w
      (λ _.
        rw
          (or_throw-world
            (find_reading p.user_id p.series_id
              (check_and_fire_milestones p now (write_progress p now w).1).1)
            record_not_found (check_and_fire_milestones p now (write_progress p now w).1).1)
          (check_and_fire_milestones-Keeps p now (write_progress p now w).1 own))

write_progress-users :
    (p : Progress) (now : ℕ) (w : World) → (write_progress p now w).1.db.users ≡ w.db.users
unfolding write_progress update_passport
write_progress-users p now w = ground (arith)

write_progress-IsMirrored :
    (p : Progress) (now : ℕ) (w : World)
    → IsMirrored w.db w.chain
    → IsMirrored (write_progress p now w).1.db (write_progress p now w).1.chain
unfolding write_progress update_passport
write_progress-IsMirrored p now w m = go p.is_new m
  where
    v : World
    v = record w {
      db = record w.db { reading_records = upsert_reading p now w.db.reading_records };
    }

    base : IsMirrored w.db w.chain → IsMirrored v.db v.chain
    base m = record {
      balances = m.balances;
      passports = m.passports;
      spent = m.spent;
      covered = m.covered;
    }

    go :
        (b : Bool)
        → IsMirrored w.db w.chain
        → let out : Result Error (Unit {0}) × World =
            when b
              (update_passport p.user_id (λ q. record q { series_tracked = q.series_tracked + 1 }))
              v in
          IsMirrored out.1.db out.1.chain
    go true m = record {
      balances = λ u. ground (arith, m.balances u);
      passports = λ u q h. elim (Option-cases (w.db.passports p.user_id)) [
        | inl e ↦ ground (arith, m.passports u q, e)
        | inr (r, e) ↦ ground (arith, m.passports u q, m.passports p.user_id r e, e)
      ];
      spent = λ k h. ground (arith, m.spent k);
      covered = λ u user h. ground (arith, m.covered u user);
    }
    go false m = base m

Keeps-IsTracked : {w w' : World} → Keeps w w' → IsTracked w.db → IsTracked w'.db
Keeps-IsTracked {w} {w'} k t = record {
  tracked = λ u q h. elim (Option-cases (w.db.passports u)) [
    | inl e ↦ ground (arith, k.tracked u, e)
    | inr (p, e) ↦ rw k.rows (ground (arith, k.tracked u, e, h, t.tracked u p e))
  ];
}

module _ (user wallet : ℕ) (dto : UpsertReadingRecordDto) (now : ℕ) (w : World) (reader : User)
    (known : w.db.users user ≡ some reader) (own : wallet ≡ reader.wallet_address) where
  -- The checks of upsertRecord write nothing, and its progress is the reader's.
  upsert_record-cases :
      ((upsert_record user wallet dto now w).1 ≡ w)
      ⊎ ((chapter : ℕ) × (let p = progress user wallet dto.series_id dto.status chapter w in
            (upsert_record user wallet dto now w).1 ≡ (follow_progress p now w).1))
  unfolding upsert_record
  upsert_record-cases = elim (Option-cases dto.current_chapter) [
    | inl e ↦ inl (ground (arith, e))
    | inr (chapter, e) ↦ elim (Bool-cases (is_known (w.db.series dto.series_id))) [
      | inl k ↦ inr (chapter, ground (arith, e, k))
      | inr k ↦ inl (ground (arith, e, k))
    ]
  ]

  follow-Keeps :
      (chapter : ℕ)
      → let p = progress user wallet dto.series_id dto.status chapter w in
        Keeps (write_progress p now w).1 (follow_progress p now w).1
  unfolding progress
  follow-Keeps chapter =
      let p = progress user wallet dto.series_id dto.status chapter w in
      follow_progress-Keeps p now w (reader, rw (write_progress-users p now w) known, own)

  -- After upsertRecord a passport still counts its user's records, whatever the milestones do and
  -- wherever they fail, for a reader who exists and acts with their own wallet, as long as the database
  -- takes the write of the record and that of the passport.
  pub upsert_record-IsTracked :
      IsTracked w.db → IsTracked (upsert_record user wallet dto now w).1.db
  upsert_record-IsTracked t = elim upsert_record-cases [
    | inl e ↦ rw e t
    | inr (chapter, e) ↦ rw e (
        Keeps-IsTracked (follow-Keeps chapter)
          (write_progress-IsTracked user wallet dto.series_id dto.status chapter now w t))
  ]

  -- upsertRecord keeps the mirror of INK, whatever the milestones do and whatever fails, for a
  -- reader who exists and acts with their own wallet.
  pub upsert_record-IsMirrored :
      IsMirrored w.db w.chain
      → IsMirrored
          (upsert_record user wallet dto now w).1.db
          (upsert_record user wallet dto now w).1.chain
  upsert_record-IsMirrored m = elim upsert_record-cases [
    | inl e ↦ rw e m
    | inr (chapter, e) ↦ rw e (
        (follow-Keeps chapter).mirrored (
          write_progress-IsMirrored (progress user wallet dto.series_id dto.status chapter w) now w
            m))
  ]
