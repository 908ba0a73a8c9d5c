-- ===== src/Write/Fixed/RoundTrip.antt =====
-- backends/c/runtime: the fixed-width writes of bbq_runtime.h, and the reads of the same names in
-- bbq_read.h.
use bbq.Base.{
  ℕ, ◌+◌, ◌^◌, ◌<◌, ◌≡◌, refl, ap, ap₂, ◌∙◌, Bool, true, List, arith, length, leb, take, drop,
  length-append, length-take, take_all, if_true,
}
use mathlib.Core.List.{append-nil}
use bbq.Read.Ctx.{
  Ctx, Message, done, effective_end, u16be_overrun, u16le_overrun, u32be_overrun, u32le_overrun,
  u64be_overrun, u64le_overrun,
}
use bbq.Read.Fixed.Laws.{IsParsing, expected, fixed_reads}
use bbq.Read.Fixed.{le_value, be_from, be_value}
use bbq.Write.Buffer.{WriteCtx, written}
use bbq.Write.Buffer.Reserve.{IsBuffer, Untouched}
use bbq.Write.Buffer.Emit.{Emitted, behind, emitted_from_true}
use bbq.Write.Fixed.{le_bytes, be_bytes}
use bbq.Write.Fixed.Forms.{
  Form, u16be, u16le, u32be, u32le, u64be, u64le, bytes_of, form_bytes, write_form, read_form,
  fixed_writes,
}

message_of : Form → Message
message_of u16be = u16be_overrun
message_of u16le = u16le_overrun
message_of u32be = u32be_overrun
message_of u32le = u32le_overrun
message_of u64be = u64be_overrun
message_of u64le = u64le_overrun

value_of : Form → List ℕ → ℕ
value_of u16be = be_value
value_of u16le = le_value
value_of u32be = be_value
value_of u32le = le_value
value_of u64be = be_value
value_of u64le = le_value

read_form-expected :
    (f : Form) (host : Bool) (r : Ctx)
    → IsParsing r
    → read_form f host r ≡ expected (bytes_of f) (message_of f) (value_of f) r
unfolding message_of value_of
read_form-expected u16be host r h = (fixed_reads r h host).0
read_form-expected u16le host r h = (fixed_reads r h host).1
read_form-expected u32be host r h = (fixed_reads r h host).2
read_form-expected u32le host r h = (fixed_reads r h host).3
read_form-expected u64be host r h = (fixed_reads r h host).4
read_form-expected u64le host r h = (fixed_reads r h host).5

value_of-form_bytes : (f : Form) (v : ℕ) → v < 256 ^ bytes_of f → value_of f (form_bytes f v) ≡ v
unfolding value_of le_bytes be_bytes le_value be_value be_from
value_of-form_bytes u16be v h = omega arith
value_of-form_bytes u16le v h = omega arith
value_of-form_bytes u32be v h = omega arith
value_of-form_bytes u32le v h = omega arith
value_of-form_bytes u64be v h = omega arith
value_of-form_bytes u64le v h = omega arith

form_bytes-length : (f : Form) (v : ℕ) → length (form_bytes f v) ≡ bytes_of f
unfolding le_bytes be_bytes
form_bytes-length u16be v = refl
form_bytes-length u16le v = refl
form_bytes-length u32be v = refl
form_bytes-length u32le v = refl
form_bytes-length u64be v = refl
form_bytes-length u64le v = refl

-- A value written in a form on one host is what the read of that form gives back on any other host
-- that stands at those bytes, with no window open, in an input of bytes that a size_t holds.
pub read-write_fixed :
    (f : Form) (writer reader : Bool) (v : ℕ) (c c' : WriteCtx) (r : Ctx)
    → v < 256 ^ bytes_of f
    → IsBuffer c
    → write_form f writer v c ≡ (true, c')
    → IsParsing r
    → r.input ≡ written c'
    → r.pos ≡ c.pos
    → r.interval_depth ≡ 0
    → read_form f reader r ≡ (done v, record r { pos = c'.pos })
read-write_fixed f writer reader v c c' r small h ran ok input pos open_ =
    let bs = form_bytes f v in
    let e : Emitted bs c c' =
      emitted_from_true _ (Untouched c) (write_form f writer v c) c' ran
        (fixed_writes f writer v c small h) in
    let whole : effective_end r ≡ length r.input = ground arith in
    let len = form_bytes-length f v in
    let size : length r.input ≡ c.pos + bytes_of f =
      ap length (input ∙ e.output)
      ∙ length-append (written c) bs
      ∙ omega (arith, len, length-take c.pos c.buf, h.within) in
    let at : take (bytes_of f) (drop r.pos r.input) ≡ bs =
      ap₂ (λ n l. take (bytes_of f) (drop n l)) pos input
      ∙ ap (λ l. take (bytes_of f) l) (behind bs c c' h e ∙ append-nil bs)
      ∙ take_all (bytes_of f) bs (omega (arith, len)) in
    let room : leb (r.pos + bytes_of f) (effective_end r) ≡ true = ground arith in
    read_form-expected f reader r ok
    ∙ if_true _ _ _ room
    ∙ ap₂ (λ (x p : ℕ). (done x, record r { pos = p }))
        (ap (value_of f) at ∙ value_of-form_bytes f v small) (omega (arith, pos, e.pos, len))
