-- ===== src/Noc/Interact/Records.antt =====
-- The log of kernel/noc/interact.c as a queue of whole records.
use no_os.Base.{
  ℕ, zero, suc, ◌+◌, ◌-◌, ◌≤◌, ◌<◌, ◌≡◌, refl, sym, ap, ◌∙◌, false, List, [], ◌∷◌, ◌++◌, arith, ltb,
  leb, ◌==◌, if◌then◌else◌, ltb→lt, leb→le, length, take, drop, All, length-append, length-take,
  All-append, if-cases, if-false,
}
use no_os.Noc.Interact.{Log, drop_record, evict, il_append, has_line}

-- The bytes of a list of records.
unfoldable pub flatten : List (List ℕ) → List ℕ
flatten [] = []
flatten (line ∷ rest) = line ++ 10 ∷ flatten rest

-- The log holds the records, each without a line feed.
pub record Holds (log : Log) (lines : List (List ℕ)) : Type 0 where
  pub ring : log.ring ≡ flatten lines
  pub records : log.records ≡ length lines
  pub single : All (λ line. has_line line ≡ false) lines

append_assoc : (xs ys zs : List ℕ) → (xs ++ ys) ++ zs ≡ xs ++ (ys ++ zs)
append_assoc [] ys zs = refl
append_assoc (x ∷ xs) ys zs = λ p. x ∷ append_assoc xs ys zs p

flatten-append :
    (lines : List (List ℕ)) (line : List ℕ)
    → flatten (lines ++ line ∷ []) ≡ flatten lines ++ (line ++ 10 ∷ [])
unfolding flatten
flatten-append [] line = refl
flatten-append (l ∷ lines) line =
    (λ p. l ++ 10 ∷ flatten-append lines line p)
    ∙ sym (append_assoc l (10 ∷ flatten lines) (line ++ 10 ∷ []))

-- Dropping the text of the first record leaves the others.
pub drop_record-flatten :
    (line : List ℕ) (rest : List ℕ) → has_line line ≡ false → drop_record (line ++ 10 ∷ rest) ≡ rest
unfolding drop_record has_line
drop_record-flatten [] rest h = refl
drop_record-flatten (c ∷ line) rest h =
    let differ : (c == 10) ≡ false = ground (arith, h) in
    let later : has_line line ≡ false = ground (arith, h) in
    if-false (λ t. t ≡ rest) (c == 10) (line ++ 10 ∷ rest) (drop_record (line ++ 10 ∷ rest)) differ
      (drop_record-flatten line rest later)

-- The records that are left when the oldest go until `n` bytes and a line feed fit.
pub record Kept (n : ℕ) (lines : List (List ℕ)) (ring : List ℕ) (records : ℕ) : Type 0 where
  pub gone : ℕ
  pub ring_lem : ring ≡ flatten (drop gone lines)
  pub records_lem : records ≡ length (drop gone lines)
  pub room : length ring + n + 1 ≤ 65535
  pub no_more : (k : ℕ) → k < gone → 65535 < length (flatten (drop k lines)) + n + 1

-- A record more goes at the front.
more-Kept :
    (n : ℕ) (line : List ℕ) (lines : List (List ℕ)) (ring : List ℕ) (records : ℕ)
    → 65535 < length (flatten (line ∷ lines)) + n + 1
    → Kept n lines ring records
    → Kept n (line ∷ lines) ring records
more-Kept n line lines ring records full k = record {
  gone = suc k.gone;
  ring_lem = k.ring_lem;
  records_lem = k.records_lem;
  room = k.room;
  no_more = before;
}
  where
    before : (j : ℕ) → j < suc k.gone → 65535 < length (flatten (drop j (line ∷ lines))) + n + 1
    before zero h = full
    before (suc j) h = k.no_more j (omega arith)

all-Kept :
    (n : ℕ) (lines : List (List ℕ)) (ring : List ℕ) (records : ℕ)
    → length ring + n + 1 ≤ 65535
    → ring ≡ flatten lines
    → records ≡ length lines
    → Kept n lines ring records
all-Kept n lines ring records room e c = record {
  gone = 0;
  ring_lem = e;
  records_lem = c;
  room = room;
  no_more = λ k h. absurd (omega arith);
}

not_above : (a b : ℕ) → ltb a b ≡ false → b ≤ a
not_above a b h = ground (arith, h)

nonzero : (n : ℕ) → 0 < n → (n == 0) ≡ false
nonzero n h = ground (arith, h)

kept_size :
    (s : List ℕ)
    → (length (take (if leb 65536 (length s + 1) then 65534 else length s) s)
        ≡ (if leb 65536 (length s + 1) then 65534 else length s))
      × ((if leb 65536 (length s + 1) then 65534 else length s) ≤ 65534)
kept_size s =
    if-cases (λ n. (length (take n s) ≡ n) × (n ≤ 65534)) (leb 65536 (length s + 1)) 65534
      (length s)
      (λ h. (omega (arith, length-take {0} 65534 s, leb→le 65536 (length s + 1) h), omega arith))
      (λ h.
        let small : length s ≤ 65534 = ground (arith, h) in
        (omega (arith, length-take {0} (length s) s), small))

evict-Kept :
    (fuel n : ℕ) (lines : List (List ℕ)) (ring : List ℕ) (records : ℕ)
    → n ≤ 65534
    → length lines ≤ fuel
    → ring ≡ flatten lines
    → records ≡ length lines
    → All (λ line. has_line line ≡ false) lines
    → Kept n lines (evict fuel n ring records).0 (evict fuel n ring records).1
unfolding evict flatten
evict-Kept zero n [] ring records hn hf e c s =
    all-Kept n [] ring records (omega (arith, ap length e)) e c
evict-Kept zero n (line ∷ lines) ring records hn hf e c s = absurd (omega arith)
evict-Kept (suc fuel) n [] ring records hn hf e c s =
    let short : length ring ≡ 0 = ap length e in
    if-cases (λ (r : List ℕ × ℕ). Kept n [] r.0 r.1) (ltb 65535 (length ring + n + 1)) _ _
      (λ h. absurd (ground (arith, h, short, hn)))
      (λ h. all-Kept n [] ring records (omega (arith, short)) e c)
evict-Kept (suc fuel) n (line ∷ lines) ring records hn hf e c s =
    let size : length ring ≡ length (flatten (line ∷ lines)) = ap length e in
    if-cases (λ (r : List ℕ × ℕ). Kept n (line ∷ lines) r.0 r.1) (ltb 65535 (length ring + n + 1)) _
      _
      (λ h.
        let full : 65535 < length ring + n + 1 = ltb→lt 65535 (length ring + n + 1) h in
        more-Kept n line lines _ _ (omega (arith, full, size)) (
          evict-Kept fuel n lines (drop_record ring) (records - 1) hn (omega arith)
            ((λ p. drop_record (e p)) ∙ drop_record-flatten line (flatten lines) s.0)
            (omega (arith, c)) s.1))
      (λ h. all-Kept n (line ∷ lines) ring records (not_above 65535 (length ring + n + 1) h) e c)

lines-le : (lines : List (List ℕ)) → length lines ≤ length (flatten lines)
unfolding flatten
lines-le [] = omega arith
lines-le (line ∷ lines) = omega (arith, lines-le lines, length-append {0} line (10 ∷ flatten lines))

pub has_line-take : (n : ℕ) (s : List ℕ) → has_line s ≡ false → has_line (take n s) ≡ false
unfolding has_line
has_line-take zero s h = refl
has_line-take (suc n) [] h = refl
has_line-take (suc n) (c ∷ s) h =
    let later : has_line s ≡ false = ground (arith, h) in
    let rest = has_line-take n s later in ground (arith, h, rest)

All-drop :
    (k : ℕ) (lines : List (List ℕ))
    → All (λ line. has_line line ≡ false) lines
    → All (λ line. has_line line ≡ false) (drop k lines)
All-drop zero lines h = h
All-drop (suc k) [] h = tt
All-drop (suc k) (line ∷ lines) h = All-drop k lines h.1

-- The text that a record keeps.
abbrev pub kept_text : List ℕ → List ℕ
kept_text s = take (if leb 65536 (length s + 1) then 65534 else length s) s

-- The log after a record was appended to the records `lines`.
pub record Appended (s : List ℕ) (lines : List (List ℕ)) (log : Log) : Type 0 where
  pub gone : ℕ
  pub holds : Holds log (drop gone lines ++ kept_text s ∷ [])
  pub room : length log.ring ≤ 65535
  pub no_more :
      (k : ℕ) → k < gone → 65535 < length (flatten (drop k lines)) + length (kept_text s) + 1

-- A record without a line feed that is appended to whole records leaves whole records: the oldest go, and no more
-- of them than must go for the rest and the new one to stay below the size of the buffer, and the count of
-- records is right.
pub il_append-Appended :
    (s : List ℕ) (lines : List (List ℕ)) (log : Log)
    → 0 < length s
    → has_line s ≡ false
    → Holds log lines
    → Appended s lines (il_append s log)
unfolding il_append
il_append-Appended s lines log pos one h =
    let n = if leb 65536 (length s + 1) then 65534 else length s in
    let size = kept_size s in
    let k =
      evict-Kept (length log.ring) n lines log.ring log.records (omega (arith, size.1))
        (omega (arith, lines-le lines, ap length h.ring)) h.ring h.records h.single in
    if-false (Appended s lines) (length s == 0) _ _ (nonzero (length s) pos) (record {
      gone = k.gone;
      holds = record {
        ring =
            (λ p. k.ring_lem p ++ (kept_text s ++ 10 ∷ []))
            ∙ sym (flatten-append (drop k.gone lines) (kept_text s));
        records =
            omega (arith, k.records_lem, length-append {0} (drop k.gone lines) (kept_text s ∷ []));
        single =
            All-append (λ line. has_line line ≡ false) (drop k.gone lines) (kept_text s ∷ [])
              (All-drop k.gone lines h.single) (has_line-take n s one, tt);
      };
      room = omega (
        arith,
        k.room,
        size.0,
        length-append {0} (evict (length log.ring) n log.ring log.records).0
            (kept_text s ++ 10 ∷ []),
        length-append {0} (kept_text s) (10 ∷ []),
      );
      no_more = λ j lt. omega (arith, k.no_more j lt, size.0);
    })
