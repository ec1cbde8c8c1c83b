-- ===== src/Raft/Storage/Ranges.antt =====
-- Deleting and reading ranges of the log.
use apfsds_rs.Base.{ℕ, ◌≡◌, refl, Bool, not, ◌&&◌, ◌||◌, List, [], ◌∷◌, none, some, arith, ltb, leb}
use apfsds_rs.Raft.Storage.{AsyncRaft, PersistentStorage, filter, get_log_entries, delete_logs_from}

module _ (r : AsyncRaft) where
  abbrev between : ℕ → ℕ → r.Entry → Bool
  between lo hi e = leb lo (r.index e) && ltb (r.index e) hi

  read_part :
      (log : List r.Entry) (a b lo hi : ℕ)
      → filter (between lo hi) (filter (λ e. ltb (r.index e) a || leb b (r.index e)) log)
        ≡ filter (λ e. not (between a b e)) (filter (between lo hi) log)
  read_part [] a b lo hi = refl
  read_part (e ∷ log) a b lo hi = ground (arith, read_part log a b lo hi)

  read_front :
      (log : List r.Entry) (a lo hi : ℕ)
      → filter (between lo hi) (filter (λ e. ltb (r.index e) a) log)
        ≡ filter (λ e. ltb (r.index e) a) (filter (between lo hi) log)
  read_front [] a lo hi = refl
  read_front (e ∷ log) a lo hi = ground (arith, read_front log a lo hi)

  -- After a deletion, reading any range gives what it gave, in the same order, without the entries
  -- from `a` up to `b`, or without those from `a` on where no end was given.
  pub get_log_entries-delete_logs_from :
      (s : PersistentStorage r) (a b lo hi : ℕ)
      → (get_log_entries r (delete_logs_from r s a (some b)) lo hi
          ≡ filter (λ e. not (leb a (r.index e) && ltb (r.index e) b)) (get_log_entries r s lo hi))
        × (get_log_entries r (delete_logs_from r s a none) lo hi
            ≡ filter (λ e. ltb (r.index e) a) (get_log_entries r s lo hi))
  unfolding get_log_entries delete_logs_from
  get_log_entries-delete_logs_from s a b lo hi =
      (read_part s.log a b lo hi, read_front s.log a lo hi)
