-- ===== src/Db/Oracle/Rows/Lob.antt =====
-- What is read of a large object.
use libzdb.Prelude.{
  ℕ, zero, suc, ◌+◌, ◌-◌, ◌≤◌, ◌<◌, ◌≡◌, refl, sym, ap, ◌∙◌, Bool, true, false, List, [], ◌∷◌, ◌++◌,
  Option, some, Text, ok, set, arith, ltb, if◌then◌else◌, take, drop, replicate, length,
  length-append, length-take, length-replicate, append_assoc, append-nil, write, write-append,
  take-append_add, ◌==◌,
}
use libzdb.Db.Oracle.Adapter.{Oci, Status, Piece, is_need_data, is_fine}
use libzdb.Db.Oracle.Columns.{Rows, Outcome, column, resize}
use libzdb.Db.Oracle.Rows.{after, read_loop, take_blob, get_blob, to_ulong, out_of_range}
use libzdb.Prelude.Int.{ℤ, pos, ◌-ℤ◌}
use libzdb.Util.Str.{to_int}
use libzdb.Db.Delegate.{check_index}

module _ (q : Oci) (R : Rows q) (lob : Option q.Lob) where
  abbrev read : Piece → q.World → (Status × List ℕ) × q.World
  read = q.lob_read R.svc R.err lob 2000

  -- What the client library promises of a large object: so many reads that each give no more bytes than they
  -- are told to and say that there is more, and one that does not say so. The bytes of all are in order.
  pub data Delivers : ℕ → Piece → q.World → List ℕ → Status → q.World → Type 0 where
    last :
        {p : Piece} {w : q.World} (b : List ℕ) (s : Status) (w' : q.World)
        → read p w ≡ ((s, b), w')
        → length b ≤ 2000
        → is_need_data s ≡ false
        → Delivers 0 p w b s w'
    more :
        {n : ℕ} {p : Piece} {w : q.World} (b : List ℕ) (w1 : q.World) {bs : List ℕ} {s : Status}
        {w' : q.World}
        → read p w ≡ ((Status.need_data, b), w1)
        → length b ≤ 2000
        → Delivers n (after p b) w1 bs s w'
        → Delivers (suc n) p w (b ++ bs) s w'

  -- RESIZE to 2000 cells more than are filled keeps what is filled.
  resize_lem :
      (done rest : List ℕ)
      → (tail : List ℕ) × (resize q (done ++ rest) (length done + 2000) ≡ done ++ tail)
        × (2000 ≤ length tail)
  resize_lem done rest =
      let extra = replicate (length done + 2000 - length (done ++ rest)) q.junk in
      (
        take 2000 rest ++ extra,
        rw (take-append_add 2000 done rest) (append_assoc done (take 2000 rest) extra),
        omega (
          arith,
          length-append (take 2000 rest) extra,
          length-take 2000 rest,
          length-append done rest,
          length-replicate (length done + 2000 - length (done ++ rest)) q.junk,
        ),
      )

  -- The cells after a read.
  abbrev filled : List ℕ → ℕ → List ℕ → List ℕ
  filled cells total b =
      if length b == 0 then cells else resize q (write total b cells) (total + length b + 2000)

  filled_some :
      (cells : List ℕ) (total x : ℕ) (b : List ℕ)
      → filled cells total (x ∷ b)
        ≡ resize q (write total (x ∷ b) cells) (total + length (x ∷ b) + 2000)
  filled_some cells total x b =
      let some : (suc (length b) == 0) ≡ false = ground arith in rw some refl

  filled_lem :
      (done tail b : List ℕ)
      → 2000 ≤ length tail
      → (tail' : List ℕ) × (filled (done ++ tail) (length done) b ≡ (done ++ b) ++ tail')
        × (2000 ≤ length tail')
  filled_lem done tail [] h = (tail, ap (λ l. l ++ tail) (sym (append-nil done)), h)
  filled_lem done tail (x ∷ b) h =
      let rest = drop (length (x ∷ b)) tail in
      let (tail', e, k) = resize_lem (done ++ (x ∷ b)) rest in
      let written : write (length done) (x ∷ b) (done ++ tail) ≡ (done ++ (x ∷ b)) ++ rest =
        write-append done tail (x ∷ b) ∙ sym (append_assoc done (x ∷ b) rest) in
      let total = length-append done (x ∷ b) in
      (
        tail',
        filled_some (done ++ tail) (length done) x b
            ∙ ap (λ l. resize q l (length done + length (x ∷ b) + 2000)) written
            ∙ ap (λ n. resize q ((done ++ (x ∷ b)) ++ rest) (n + 2000)) (sym total)
            ∙ e,
        k,
      )

  read_last :
      (n total : ℕ) (cells b : List ℕ) (p : Piece) (w w' : q.World) (s : Status)
      → read p w ≡ ((s, b), w')
      → total + length b ≤ length cells
      → is_need_data s ≡ false
      → read_loop q (suc n) R lob cells total p w
        ≡ some ((s, filled cells total b, total + length b), w')
  unfolding read_loop
  read_last n total cells b p w w' s e room done =
      let fits : ltb (length cells) (total + length b) ≡ false = ground arith in
      rw (e, fits, done) refl

  read_more :
      (n total : ℕ) (cells b : List ℕ) (p : Piece) (w w' : q.World)
      → read p w ≡ ((Status.need_data, b), w')
      → total + length b ≤ length cells
      → read_loop q (suc n) R lob cells total p w
        ≡ read_loop q n R lob (filled cells total b) (total + length b) (after p b) w'
  unfolding read_loop is_need_data
  read_more n total cells b p w w' e room =
      let fits : ltb (length cells) (total + length b) ≡ false = ground arith in rw (e, fits) refl

  -- The loop with what was read before at the front of the cells.
  read_loop-Delivers :
      (rounds : ℕ) (done tail : List ℕ) {n : ℕ} {p : Piece} {w : q.World} {bs : List ℕ} {s : Status}
      {w' : q.World}
      → Delivers n p w bs s w'
      → n < rounds
      → 2000 ≤ length tail
      → (tail' : List ℕ) × (read_loop q rounds R lob (done ++ tail) (length done) p w
          ≡ some ((s, (done ++ bs) ++ tail', length (done ++ bs)), w'))
  read_loop-Delivers zero done tail d lt room = absurd (omega arith)
  read_loop-Delivers (suc rounds) done tail {p} {w} (last b s w' e few end) lt room =
      let (tail', f, k) = filled_lem done tail b room in
      let fits : length done + length b ≤ length (done ++ tail) =
        omega (arith, length-append done tail) in
      (
        tail',
        read_last rounds (length done) (done ++ tail) b p w w' s e fits end
            ∙ ap (λ l. some ((s, l, length done + length b), w')) f
            ∙ ap (λ m. some ((s, (done ++ b) ++ tail', m), w')) (sym (length-append done b)),
      )
  read_loop-Delivers (suc rounds) done tail {p} {w} {s} {w'} (more {n} b w1 {bs} e few rest) lt
        room =
      let (tail', f, k) = filled_lem done tail b room in
      let fits : length done + length b ≤ length (done ++ tail) =
        omega (arith, length-append done tail) in
      let (last_tail, g) = read_loop-Delivers rounds (done ++ b) tail' rest (omega arith) k in
      (
        last_tail,
        read_more rounds (length done) (done ++ tail) b p w w1 e fits
            ∙ ap (λ l. read_loop q rounds R lob l (length done + length b) (after p b) w1) f
            ∙ ap (λ m. read_loop q rounds R lob ((done ++ b) ++ tail') m (after p b) w1)
                (sym (length-append done b))
            ∙ g
            ∙ ap (λ l. some ((s, l ++ last_tail, length l), w')) (append_assoc done b bs),
      )

  -- The first cells of a list.
  abbrev BeginsWith : List ℕ → List ℕ → Type 0
  BeginsWith bs cells = (tail : List ℕ) × (cells ≡ bs ++ tail)

if_false : {A : Type 0} (b : Bool) (x y : A) → b ≡ false → (if b then x else y) ≡ y
if_false b x y e = rw e refl

check_index_lem :
    (message : Text) (i count : ℕ)
    → i < count
    → check_index message (pos (suc i)) (pos count) ≡ ok (pos i)
unfolding check_index ◌-ℤ◌
check_index_lem message i count h = ground arith

module _ (q : Oci) where
  -- What `take_blob` makes of a loop that ended well.
  abbrev pub taken : Rows q → ℕ → Status → List ℕ → ℕ → q.World → Outcome q (Option (List ℕ × ℤ))
  taken R i s cells total w = (
    ok (some (cells, to_int (pos total))),
    record R {
      last_error = s;
      columns =
          set R.columns i
            (record (column q R i) { buffer = some cells; length = to_ulong (to_int (pos total)) });
    },
    w,
  )

  take_blob_lem :
      (R : Rows q) (i : ℕ) (s : Status) (cells : List ℕ) (total : ℕ) (w : q.World)
      → is_fine s ≡ true
      → take_blob q R i ((s, cells, total), w) ≡ taken R i s cells total w
  unfolding take_blob
  take_blob_lem R i s cells total w e = rw e refl

  get_blob_lem :
      (R : Rows q) (i rounds : ℕ) (w : q.World) (r : (Status × List ℕ × ℕ) × q.World)
      → i < length R.columns
      → (column q R i).is_null ≡ false
      → read_loop q rounds R (column q R i).lob_loc (replicate 2000 q.junk) 0 Piece.first_piece w
        ≡ some r
      → get_blob q rounds R (pos (suc i)) w ≡ some (take_blob q R i r)
  unfolding get_blob
  get_blob_lem R i rounds w r within there e =
      rw (check_index_lem out_of_range i (length R.columns) within, get_blob)
        (if_false _ _ _ there ∙ rw e refl)

  -- What is returned, with the end of the cells unknown.
  abbrev pub Returns :
      Rows q → ℕ → List ℕ → Status → q.World → Option (Outcome q (Option (List ℕ × ℤ))) → Type 0
  Returns R i bs s w result =
      (tail : List ℕ) × (result ≡ some (taken R i s (bs ++ tail) (length bs) w))

  -- For a column that is not NULL, where the client library delivers bytes in so many reads and one, each of
  -- which gives no more bytes than it is told there is room for, and ends well, the loop needs no more
  -- rounds than these, no byte is written behind the cells, and the bytes of all reads in order, with their
  -- number as an `int`, are what is returned and kept in the column.
  pub get_blob-Delivers :
      (R : Rows q) (i n rounds : ℕ) (w w' : q.World) (bs : List ℕ) (s : Status)
      → i < length R.columns
      → (column q R i).is_null ≡ false
      → Delivers q R (column q R i).lob_loc n Piece.first_piece w bs s w'
      → is_fine s ≡ true
      → n < rounds
      → Returns R i bs s w' (get_blob q rounds R (pos (suc i)) w)
  get_blob-Delivers R i n rounds w w' bs s within there d fine lt =
      let (tail, e) =
        read_loop-Delivers q R (column q R i).lob_loc rounds [] (replicate 2000 q.junk) d lt
          (omega (arith, length-replicate 2000 q.junk)) in
      (
        tail,
        get_blob_lem R i rounds w ((s, bs ++ tail, length bs), w') within there e
            ∙ ap some (take_blob_lem R i s (bs ++ tail) (length bs) w' fine),
      )
