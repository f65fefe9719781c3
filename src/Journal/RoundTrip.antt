-- ===== src/Journal/RoundTrip.antt =====
-- What the guest writes to the journal, the contracts read back.
use malda_lending_fuzz.Prelude.{
  ℕ, ◌+◌, ◌%◌, ◌^◌, ◌<◌, ◌≡◌, refl, ◌∙◌, arith, Bool, true, false, List, [], ◌∷◌, ◌++◌, length,
  take, drop, length-append, take-append, drop-append, leb, ok,
}
use malda_lending_fuzz.Bytes.{Bytes, U256, to_be_bytes, from_be_bytes}
use malda_lending_fuzz.Bytes.Laws.{length-to_be_bytes, from_be_bytes-to_be_bytes}
use malda_lending_fuzz.Externals.{Externals}
use malda_lending_fuzz.Types.Contracts.{CallResult}
use malda_lending_fuzz.Types.Abi.{encode_packed}
use malda_lending_fuzz.Types.Abi.Laws.{
  flag_byte, pack-address, pack-bool, pack-number, pack-number_with_shift,
}
use malda_lending_fuzz.Validators.Batch.{Query, journal_items, encode_result}
use malda_lending_fuzz.Journal.{entry_size, read_uint, field, decode_journal}
use native.Mathlib.Nat.{mod-eq_of_lt, zero-add, suc-add}
use mathlib.Core.List.{append-nil}

-- The bytes of an entry.
abbrev pub entry_bytes : ℕ → Bool → Query → U256 → U256 → Bytes
entry_bytes chain_id flag q amount_in amount_out =
    to_be_bytes 20 q.user
    ++ (to_be_bytes 20 q.market
        ++ (to_be_bytes 32 amount_in
            ++ (to_be_bytes 32 amount_out
                ++ (to_be_bytes 4 chain_id
                    ++ (to_be_bytes 4 q.target_chain_id ++ (flag_byte flag ∷ []))))))

pub encode_packed-journal_items :
    (X : Externals) (chain_id : ℕ) (flag : Bool) (q : Query) (amount_in amount_out : U256)
    → encode_packed X (journal_items chain_id flag q (amount_in, amount_out))
      ≡ ok (
        entry_bytes chain_id flag q amount_in amount_out,
        X.hex_encode (entry_bytes chain_id flag q amount_in amount_out),
      )
unfolding encode_packed journal_items
encode_packed-journal_items X chain_id flag q amount_in amount_out =
    rw
      (
        pack-address X q.user,
        pack-address X q.market,
        pack-number X amount_in,
        pack-number X amount_out,
        pack-number_with_shift X chain_id,
        pack-number_with_shift X q.target_chain_id,
        pack-bool X flag,
      )
      refl

take-append_exact : {A : Type 0} (n : ℕ) (xs ys : List A) → length xs ≡ n → take n (xs ++ ys) ≡ xs
take-append_exact n xs ys e = rw (← e) (take-append xs ys)

drop-append_exact : {A : Type 0} (n : ℕ) (xs ys : List A) → length xs ≡ n → drop n (xs ++ ys) ≡ ys
drop-append_exact n xs ys e = rw (← e) (drop-append xs ys)

read_uint-to_be_bytes : (width n : ℕ) → read_uint width (to_be_bytes width n) ≡ ok (n % 256 ^ width)
unfolding read_uint
read_uint-to_be_bytes width n =
    rw
      (
        length-to_be_bytes width n,
        take_all (to_be_bytes width n) (length-to_be_bytes width n),
        from_be_bytes-to_be_bytes,
      )
      (ground arith)
  where
    take_all : (xs : Bytes) → length xs ≡ width → take width xs ≡ xs
    take_all xs e = rw (append-nil) at (take-append_exact width xs [] e)

-- A field that starts behind `front` and is `width` bytes wide is read back.
field-append :
    (front back : Bytes) (start width n : ℕ)
    → length front ≡ start
    → field (front ++ (to_be_bytes width n ++ back)) start width ≡ ok (n % 256 ^ width)
unfolding field
field-append front back start width n e =
    rw
      (
        drop-append_exact start front (to_be_bytes width n ++ back) e,
        take-append_exact width (to_be_bytes width n) back (length-to_be_bytes width n),
        fits,
      )
      (read_uint-to_be_bytes width n)
  where
    fits : leb (start + width) (length (front ++ (to_be_bytes width n ++ back))) ≡ true
    fits = ground (
      arith,
      length-append front (to_be_bytes width n ++ back),
      length-append (to_be_bytes width n) back,
      length-to_be_bytes width n,
    )

drop-skip : {A : Type 0} (xs ys : List A) (s : ℕ) → drop (length xs + s) (xs ++ ys) ≡ drop s ys
drop-skip [] ys s = rw zero-add refl
drop-skip (x ∷ xs) ys s = rw (suc-add (length xs) s) (drop-skip xs ys s)

-- A field behind a known number of bytes is a field of what follows them.
field-skip :
    (front rest : Bytes) (k start width : ℕ)
    → length front ≡ k
    → field (front ++ rest) (k + start) width ≡ field rest start width
unfolding field
field-skip front rest k start width e = rw (← e, drop-skip front rest start, same_test) refl
  where
    same_test :
        leb (length front + start + width) (length (front ++ rest))
        ≡ leb (start + width) (length rest)
    same_test = ground (arith, length-append front rest)

skip :
    (w n : ℕ) (rest : Bytes) (start width : ℕ)
    → field (to_be_bytes w n ++ rest) (w + start) width ≡ field rest start width
skip w n rest start width = field-skip (to_be_bytes w n) rest w start width (length-to_be_bytes w n)

first :
    (width n : ℕ) (back : Bytes)
    → field (to_be_bytes width n ++ back) 0 width ≡ ok (n % 256 ^ width)
first width n back = field-append [] back 0 width n refl

field-flag : (flag : Bool) → field (flag_byte flag ∷ []) 0 1 ≡ ok (flag_byte flag)
unfolding field from_be_bytes
field-flag true = refl
field-flag false = refl

module _ (chain_id : ℕ) (flag : Bool) (q : Query) (amount_in amount_out : U256) where
  length-entry_bytes : length (entry_bytes chain_id flag q amount_in amount_out) ≡ entry_size
  length-entry_bytes = simp (length-append, length-to_be_bytes)

  field-entry_bytes :
      (field (entry_bytes chain_id flag q amount_in amount_out) 0 20 ≡ ok (q.user % 256 ^ 20))
      × (field (entry_bytes chain_id flag q amount_in amount_out) 20 20 ≡ ok (q.market % 256 ^ 20))
      × (field (entry_bytes chain_id flag q amount_in amount_out) 40 32 ≡ ok (amount_in % 256 ^ 32))
      × (field (entry_bytes chain_id flag q amount_in amount_out) 72 32
          ≡ ok (amount_out % 256 ^ 32))
      × (field (entry_bytes chain_id flag q amount_in amount_out) 104 4 ≡ ok (chain_id % 256 ^ 4))
      × (field (entry_bytes chain_id flag q amount_in amount_out) 108 4
          ≡ ok (q.target_chain_id % 256 ^ 4))
      × (field (entry_bytes chain_id flag q amount_in amount_out) 112 1 ≡ ok (flag_byte flag))
  field-entry_bytes = (
    first 20 q.user _,
    skip 20 q.user _ 0 20 ∙ first 20 q.market _,
    skip 20 q.user _ 20 32 ∙ skip 20 q.market _ 0 32 ∙ first 32 amount_in _,
    skip 20 q.user _ 52 32
        ∙ skip 20 q.market _ 32 32
        ∙ skip 32 amount_in _ 0 32
        ∙ first 32 amount_out _,
    skip 20 q.user _ 84 4
        ∙ skip 20 q.market _ 64 4
        ∙ skip 32 amount_in _ 32 4
        ∙ skip 32 amount_out _ 0 4
        ∙ first 4 chain_id _,
    skip 20 q.user _ 88 4
        ∙ skip 20 q.market _ 68 4
        ∙ skip 32 amount_in _ 36 4
        ∙ skip 32 amount_out _ 4 4
        ∙ skip 4 chain_id _ 0 4
        ∙ first 4 q.target_chain_id _,
    skip 20 q.user _ 92 1
        ∙ skip 20 q.market _ 72 1
        ∙ skip 32 amount_in _ 40 1
        ∙ skip 32 amount_out _ 8 1
        ∙ skip 4 chain_id _ 4 1
        ∙ skip 4 q.target_chain_id _ 0 1
        ∙ field-flag flag,
  )

  pub decode_journal-entry_bytes :
      q.user < 2 ^ 160
      → q.market < 2 ^ 160
      → amount_in < 2 ^ 256
      → amount_out < 2 ^ 256
      → decode_journal (entry_bytes chain_id flag q amount_in amount_out)
        ≡ ok (record {
          sender = q.user;
          market = q.market;
          acc_amount_in = amount_in;
          acc_amount_out = amount_out;
          chain_id = chain_id % 2 ^ 32;
          dst_chain_id = q.target_chain_id % 2 ^ 32;
          l1_inclusion = flag;
        })
  unfolding decode_journal
  decode_journal-entry_bytes user market fits_in fits_out =
      let (f₀, f₁, f₂, f₃, f₄, f₅, f₆) = field-entry_bytes in
      rw
        (
          length-entry_bytes,
          f₀,
          f₁,
          f₂,
          f₃,
          f₄,
          f₅,
          f₆,
          mod-eq_of_lt user,
          mod-eq_of_lt market,
          mod-eq_of_lt fits_in,
          mod-eq_of_lt fits_out,
        )
        (ground arith)

-- Every answer of a query whose addresses and amounts fit their types becomes a journal entry of
-- 113 bytes, and the contracts read the entry back as the user, the market, the two amounts and the
-- inclusion flag, and the two chain identifiers cut to 32 bits.
pub journal_round_trip :
    (X : Externals) (chain_id : ℕ) (flag : Bool) (q : Query) (result : CallResult)
    (amount_in amount_out : U256)
    → X.abi_decode_amounts result.return_data ≡ ok (amount_in, amount_out)
    → q.user < 2 ^ 160
    → q.market < 2 ^ 160
    → amount_in < 2 ^ 256
    → amount_out < 2 ^ 256
    → (entry : Bytes) × (encode_result X chain_id flag q result ≡ ok entry)
      × (length entry ≡ entry_size)
      × (decode_journal entry
          ≡ ok (record {
            sender = q.user;
            market = q.market;
            acc_amount_in = amount_in;
            acc_amount_out = amount_out;
            chain_id = chain_id % 2 ^ 32;
            dst_chain_id = q.target_chain_id % 2 ^ 32;
            l1_inclusion = flag;
          }))
unfolding encode_result
journal_round_trip X chain_id flag q result amount_in amount_out decoded user market fits_in
      fits_out =
    (
      entry_bytes chain_id flag q amount_in amount_out,
      rw (decoded, encode_packed-journal_items) refl,
      length-entry_bytes chain_id flag q amount_in amount_out,
      decode_journal-entry_bytes chain_id flag q amount_in amount_out user market fits_in fits_out,
    )
