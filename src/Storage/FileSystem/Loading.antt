-- ===== src/Storage/FileSystem/Loading.antt =====
-- `FileSystemStorage.Load` (filesystem_storage.go): its loop over the stored events, with and without a limit.
use atlasic.Prelude.{
  ℕ, zero, suc, ◌-◌, ◌<◌, ◌≡◌, refl, ◌∙◌, inl, inr, Bool-cases, List, [], ◌∷◌, ◌++◌, arith,
  append_assoc, append-nil, leb, ltb, ℤ, pos, negsuc, length, take, drop, length-append, drop-nil,
  take-nil, true, false,
}
use atlasic.A2a.{StreamResponse}
use atlasic.Storage.{limit_events}
use atlasic.Storage.FileSystem.{filter_events, is_full}

drop_due : (start i : ℕ) (es : List StreamResponse) → leb start i ≡ true → drop (start - i) es ≡ es
drop_due start i es due = let none_left : start - i ≡ 0 = ground arith in rw none_left refl

drop_early :
    (start i : ℕ) (e : StreamResponse) (es : List StreamResponse)
    → leb start i ≡ false
    → drop (start - i) (e ∷ es) ≡ drop (start - suc i) es
drop_early start i e es early =
    let step : start - i ≡ suc (start - suc i) = ground arith in rw step refl

due-suc : (start i : ℕ) → leb start i ≡ true → leb start (suc i) ≡ true
due-suc start i due = ground arith

positive : (n : ℕ) → ltb 0 (suc n) ≡ true
positive n = ground arith

sub-zero : (n : ℕ) → n - 0 ≡ n
sub-zero n = omega arith

module _ (n : ℕ) (acc : List StreamResponse) (e : StreamResponse) (room : length acc < suc n) where
  last_place : leb (suc n) (length (acc ++ e ∷ [])) ≡ true → suc n - length acc ≡ 1
  last_place full = ground (arith, length-append acc (e ∷ []))

  more_room :
      leb (suc n) (length (acc ++ e ∷ [])) ≡ false
      → (length (acc ++ e ∷ []) < suc n)
        × (suc n - length acc ≡ suc (suc n - length (acc ++ e ∷ [])))
  more_room open_ = ground (arith, length-append acc (e ∷ []))

module _ (start : ℕ) (limit : ℤ) (never_full : (k : ℕ) → is_full limit k ≡ false) where
  -- With no limit the loop adds all the events from `start` on.
  filter_events-unlimited :
      (i : ℕ) (acc es : List StreamResponse)
      → filter_events start limit i acc es ≡ acc ++ drop (start - i) es
  unfolding filter_events
  filter_events-unlimited i acc [] = rw (drop-nil, append-nil) refl
  filter_events-unlimited i acc (e ∷ es) = elim (Bool-cases (leb start i)) [
    | inl due ↦
        rw (due, never_full (length (acc ++ e ∷ [])), drop_due start i (e ∷ es) due)
          (filter_events-unlimited (suc i) (acc ++ e ∷ []) es
            ∙ rw (drop_due start (suc i) es (due-suc start i due), append_assoc) refl)
    | inr early ↦ rw (early, drop_early start i e es early) (filter_events-unlimited (suc i) acc es)
  ]

module _ (start n : ℕ) where
  -- With a limit of n + 1 it stops when that many have been collected.
  filter_events-limited :
      (i : ℕ) (acc es : List StreamResponse)
      → length acc < suc n
      → filter_events start (pos (suc n)) i acc es
        ≡ acc ++ take (suc n - length acc) (drop (start - i) es)
  unfolding filter_events
  filter_events-limited i acc [] room = rw (drop-nil, take-nil, append-nil) refl
  filter_events-limited i acc (e ∷ es) room = elim (Bool-cases (leb start i)) [
    | inl due ↦ elim (Bool-cases (leb (suc n) (length (acc ++ e ∷ [])))) [
      | inl full ↦
          rw (due, full, positive n, drop_due start i (e ∷ es) due, last_place n acc e room full)
            refl
      | inr more ↦
          rw (due, more, positive n, drop_due start i (e ∷ es) due, (more_room n acc e room more).1)
            (filter_events-limited (suc i) (acc ++ e ∷ []) es (more_room n acc e room more).0
              ∙ rw (drop_due start (suc i) es (due-suc start i due), append_assoc) refl)
    ]
    | inr early ↦
        rw (early, drop_early start i e es early) (filter_events-limited (suc i) acc es room)
  ]

-- The loop of `Load` returns the events from index `start` on, the first `limit` of them where the
-- limit is positive.
pub filter_events_lem :
    (start : ℕ) (limit : ℤ) (es : List StreamResponse)
    → filter_events start limit 0 [] es ≡ limit_events limit (drop start es)
filter_events_lem start (pos zero) es =
    filter_events-unlimited start (pos 0) (λ k. refl) 0 [] es ∙ rw (sub-zero start) refl
filter_events_lem start (pos (suc n)) es =
    filter_events-limited start n 0 [] es (omega arith) ∙ rw (sub-zero start, sub-zero (suc n)) refl
filter_events_lem start (negsuc n) es =
    filter_events-unlimited start (negsuc n) (λ k. refl) 0 [] es ∙ rw (sub-zero start) refl
