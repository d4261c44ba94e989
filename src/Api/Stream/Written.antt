-- ===== src/Api/Stream/Written.antt =====
-- The write functions of src/agc_api.c on streams whose text ends inside the buffer.
use common_framework.Base.{
  ℕ, suc, ◌+◌, ◌-◌, ◌≤◌, ◌<◌, ◌≡◌, refl, sym, ap, ◌∙◌, ◌≢◌, inl, inr, true, false, not, some, List,
  [], ◌∷◌, ◌++◌, append_assoc, append-nil, arith, success, ltb, leb, ◌==◌, lt→ltb, ltb→le, leb→lt,
  ne→==, Bool-cases, length, length-append, All, All-append,
}
use common_framework.Base.CString.{CString}
use common_framework.Api.Stream.{
  Stream, stand_stream, before_zero, put_text, grown, write_data, stream_write, put_raw,
  stream_raw_write, Write, formatted, raw, write_one, if_success, write_all,
}

abbrev pub NoZero : CString → Type 0
NoZero = All (λ c. c ≢ 0)

before_zero_lem : (s : CString) → NoZero s → before_zero s ≡ s
before_zero_lem [] h = refl
before_zero_lem (c ∷ s) (h, hs) = rw (ne→== c 0 h) (ap (◌∷◌ c) (before_zero_lem s hs))

-- The text ends inside the buffer, the buffer can grow, and the text has no zero.
pub record Open (h : Stream) : Type 0 where
  pub inside : length h.text < h.data_size
  pub can_grow : 0 < h.alloc_len
  pub chunk : 0 < h.alloc_chunk
  pub clean : NoZero h.text

put_text-fits :
    (h : Stream) (s : CString)
    → Open h
    → NoZero s
    → suc (length s) ≤ h.data_size - length h.text
    → put_text h s ≡ (record h { text = h.text ++ s }, success)
unfolding put_text
put_text-fits h s o z l =
    let fits : ltb (h.data_size - length h.text) (suc (length s)) ≡ false = ground arith in
    rw (fits, before_zero_lem (h.text ++ s) (All-append (λ c. c ≢ 0) h.text s o.clean z)) refl

Open-grown : (h : Stream) (n : ℕ) → Open h → Open (grown h n)
Open-grown h n o = record {
  inside = omega (arith, o.inside);
  can_grow = omega (arith, o.inside, o.chunk);
  chunk = o.chunk;
  clean = o.clean;
}

Open-text :
    (h : Stream) (s : CString)
    → Open h
    → NoZero s
    → length h.text + length s < h.data_size
    → Open (record h { text = h.text ++ s })
Open-text h s o z l = record {
  inside = omega (arith, length-append h.text s);
  can_grow = o.can_grow;
  chunk = o.chunk;
  clean = All-append (λ c. c ≢ 0) h.text s o.clean z;
}

-- The result of a write that succeeds: a stream that is still open, with the text at its end.
abbrev pub Appended : Stream → CString → Stream → Type 0
Appended h s h' = Open h' × (h'.text ≡ h.text ++ s) × (h'.uuid ≡ h.uuid)

-- While realloc succeeds, agc_api_stream_write on an open stream succeeds and puts a text without
-- zeros behind the others; the stream stays open.
stream_write-Appended :
    (h : Stream) (s : CString)
    → Open h
    → NoZero s
    → (h' : Stream) × (stream_write true h (some s) ≡ (h', success)) × Appended h s h'
unfolding stream_write write_data
stream_write-Appended h s o z =
    let room : leb h.data_size (length h.text) ≡ false = ground (arith, o.inside) in
    let growable : not (h.alloc_len == 0) ≡ true = ground (arith, o.can_grow) in
    elim (Bool-cases (ltb (h.data_size - length h.text) (suc (length s)))) [
      | inl full ↦
          let g = grown h (suc (length s)) in
          (
            record g { text = h.text ++ s },
            rw (room, full, growable)
                (put_text-fits g s (Open-grown h _ o) z (omega (arith, o.inside))),
            (Open-text g s (Open-grown h _ o) z (omega (arith, o.inside)), refl, refl),
          )
      | inr fits ↦
          let l = ltb→le (h.data_size - length h.text) (suc (length s)) fits in
          (
            record h { text = h.text ++ s },
            rw (room, fits) (put_text-fits h s o z l),
            (Open-text h s o z (omega (arith, o.inside)), refl, refl),
          )
    ]

put_raw-fits :
    (h : Stream) (s : CString)
    → length h.text + length s < h.data_size
    → put_raw h s ≡ some (record h { text = h.text ++ s }, success)
unfolding put_raw
put_raw-fits h s l = rw (lt→ltb (length h.text + length s) h.data_size l) refl

stream_raw_write-Appended :
    (h : Stream) (s : CString)
    → Open h
    → NoZero s
    → (h' : Stream) × (stream_raw_write true h s ≡ some (h', success)) × Appended h s h'
unfolding stream_raw_write
stream_raw_write-Appended h s o z = elim (Bool-cases (leb h.data_size (length h.text + length s))) [
  | inl full ↦
      let g : Stream = record h { data_size = length h.text + length s + h.alloc_chunk } in
      let og : Open g = record {
        inside = omega (arith, o.chunk);
        can_grow = o.can_grow;
        chunk = o.chunk;
        clean = o.clean;
      } in
      (
        record g { text = h.text ++ s },
        rw full (put_raw-fits g s (omega (arith, o.chunk))),
        (Open-text g s og z (omega (arith, o.chunk)), refl, refl),
      )
  | inr fits ↦
      let l = leb→lt h.data_size (length h.text + length s) fits in
      (
        record h { text = h.text ++ s },
        rw fits (put_raw-fits h s l),
        (Open-text h s o z l, refl, refl),
      )
]

abbrev pub text_of : Write → CString
text_of (formatted s) = s
text_of (raw s) = s

abbrev pub texts : List Write → CString
texts [] = []
texts (w ∷ ws) = text_of w ++ texts ws

abbrev pub NoZeros : List Write → Type 0
NoZeros = All (λ w. NoZero (text_of w))

write_one-Appended :
    (w : Write) (h : Stream)
    → Open h
    → NoZero (text_of w)
    → (h' : Stream) × (write_one w h ≡ some (h', success)) × Appended h (text_of w) h'
unfolding write_one
write_one-Appended (formatted s) h o z =
    let (h', e, a) = stream_write-Appended h s o z in (h', ap some e, a)
write_one-Appended (raw s) h o z = stream_raw_write-Appended h s o z

-- On an open stream, and while realloc succeeds, any calls of agc_api_stream_write and
-- agc_api_stream_raw_write with texts without zeros all succeed and stay inside the buffer; then the
-- stream holds its former text and behind it the texts of the calls, in order, and is open again.
pub write_all-Appended :
    (ws : List Write) (h : Stream)
    → Open h
    → NoZeros ws
    → (h' : Stream) × (write_all ws h ≡ some h') × Appended h (texts ws) h'
unfolding write_all
write_all-Appended [] h o z = (h, refl, (o, sym (append-nil h.text), refl))
write_all-Appended (w ∷ ws) h o (z, zs) =
    let (h1, e1, (o1, t1, u1)) = write_one-Appended w h o z in
    let (h', e', (o', t', u')) = write_all-Appended ws h1 o1 zs in
    (
      h',
      ap (λ x. if_success x (write_all ws)) e1 ∙ e',
      (o', t' ∙ (ap (λ x. x ++ texts ws) t1 ∙ append_assoc h.text (text_of w) (texts ws)), u' ∙ u1),
    )

pub stand_stream-Open : Open stand_stream
stand_stream-Open = record {
  inside = omega arith;
  can_grow = omega arith;
  chunk = omega arith;
  clean = tt;
}
