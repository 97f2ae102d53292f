-- ===== src/StreamMux/Mux.antt =====
-- `Mux` and `Stream` (streammux.go) on the receiving side. `buffered` is what the connection still has to give; a
-- channel of capacity 1 is an option.
use want.Common.{
  ℕ, ◌-◌, ◌%◌, ◌^◌, ◌≤◌, ◌<◌, ◌≡◌, ◌≢◌, ◌⊎◌, inl, inr, refl, ap, ◌∙◌, ◌==◌, if◌then◌else◌, ltb,
  Bool, true, false, ◌||◌, Option, none, some, List, [], ◌∷◌, ◌++◌, length, take, drop, arith,
}
use want.Common.Text.{Str}
use want.StreamMux.Frames.{write, read_header, read_header-write}

pub record Mux : Type 0 where
  pub buffered : Str
  -- The tags in the map `streams`.
  pub streams : List ℕ
  -- `incoming`, and the channel `lengths` of each stream.
  pub incoming : Option ℕ
  pub lengths : ℕ → Option ℕ

-- What a call comes to: it waits for room in a channel, or for the mutex that it holds itself.
pub data Came (A : Type 0) : Type 0 where
  returned : A → Came A
  waits deadlock eof out_of_range : Came A
  no_stream exists : ℕ → Came A

abbrev pub has_tag : ℕ → List ℕ → Bool
has_tag t [] = false
has_tag t (u ∷ us) = (u == t) || has_tag t us

abbrev pub at_tag : {A : Type 0} → (ℕ → A) → ℕ → A → ℕ → A
at_tag f t x u = if t == u then x else f u

-- `Open`: the bytes that it sends.
unfoldable pub open_stream : ℕ → Mux → Came (Str × Mux)
unfolding write
open_stream t m =
    if has_tag t m.streams
    then exists t
    else returned (write t [], record m { streams = t ∷ m.streams })

-- The send to `m.incoming` of a new stream, with the mutex held.
abbrev pub announce : ℕ → Option ℕ → Mux → Came Mux
announce t (some u) m = waits
announce t none m = returned (record m { incoming = some t; streams = t ∷ m.streams })

-- The send to `stream.lengths`.
abbrev pub announce_length : ℕ → ℕ → Option ℕ → Mux → Came Mux
announce_length t l (some k) m = waits
announce_length t l none m = returned (record m { lengths = at_tag m.lengths t (some l) })

-- `m.mu.Lock()` and what follows up to the unlocking: whether the caller holds the mutex already, in
-- which case it waits for itself, and the part that runs with the mutex held.
unfoldable pub locked : {A : Type 0} → Bool → (Bool → Came A) → Came A
locked true rest = deadlock
locked false rest = rest true

abbrev pub without : ℕ → List ℕ → List ℕ
without t [] = []
without t (u ∷ us) = if u == t then without t us else u ∷ without t us

-- `drop`: whether the stream was there, and the streams without it.
unfoldable pub drop_stream : Bool → ℕ → Mux → Came (Bool × Mux)
unfolding locked
drop_stream held t m =
    locked held λ h. returned (has_tag t m.streams, record m { streams = without t m.streams })

abbrev pub after_drop : Came (Bool × Mux) → Came Mux
after_drop (returned (there, m)) = returned m
after_drop waits = waits
after_drop deadlock = deadlock
after_drop eof = eof
after_drop out_of_range = out_of_range
after_drop (no_stream u) = no_stream u
after_drop (exists u) = exists u

-- `Stream.Close`, as it leaves the streams.
unfoldable pub close_stream : Bool → ℕ → Mux → Came Mux
unfolding drop_stream
close_stream held t m = after_drop (drop_stream held t m)

-- `delete(m.streams, nextTag)` behind the call of `Close`.
abbrev pub delete_after : ℕ → Came Mux → Came Mux
delete_after t (returned m) = returned (record m { streams = without t m.streams })
delete_after t waits = waits
delete_after t deadlock = deadlock
delete_after t eof = eof
delete_after t out_of_range = out_of_range
delete_after t (no_stream u) = no_stream u
delete_after t (exists u) = exists u

-- The switch of `processHeader`, with the mutex held or not.
unfoldable pub on_header : Bool → ℕ → ℕ → Mux → Came Mux
unfolding close_stream
on_header held t l m =
    if has_tag t m.streams
    then (if l == 0
        then delete_after t (close_stream held t m)
        else announce_length t l (m.lengths t) m)
    else (if l == 0 then announce t m.incoming m else no_stream t)

abbrev pub headed : Bool → Mux → Option (ℕ × ℕ × Str) → Came Mux
headed held m none = eof
headed held m (some (t, l, s)) = on_header held t l (record m { buffered = s })

-- `processHeader`, which is called without the mutex and takes it for all that it does.
unfoldable pub process_header : Mux → Came Mux
unfolding locked read_header on_header
process_header m = locked false λ held. headed held m (read_header m.buffered)

-- The last case of `Read`: a length `l` has come, the buffer has `n` bytes, and the connection gives `got` of them.
unfoldable pub read_bytes : ℕ → ℕ → ℕ → ℕ → Mux → Came (Str × Mux)
read_bytes t n got l m =
    if ltb n l
    then out_of_range
    else returned (
      take got m.buffered,
      record m {
        buffered = drop got m.buffered;
        lengths = at_tag m.lengths t (if ltb got l then some (l - got) else none);
      },
    )

-- The length for stream `t` that has come with a header; a header for another stream leaves `t` waiting.
abbrev pub read_length : ℕ → ℕ → ℕ → Option ℕ → Mux → Came (Str × Mux)
read_length t n got none m = waits
read_length t n got (some l) m = read_bytes t n got l m

abbrev pub after_header : ℕ → ℕ → ℕ → Came Mux → Came (Str × Mux)
after_header t n got (returned m) = read_length t n got (m.lengths t) m
after_header t n got waits = waits
after_header t n got deadlock = deadlock
after_header t n got eof = eof
after_header t n got out_of_range = out_of_range
after_header t n got (no_stream u) = no_stream u
after_header t n got (exists u) = exists u

abbrev pub read_next : ℕ → ℕ → ℕ → Option ℕ → Mux → Came (Str × Mux)
read_next t n got (some l) m = read_bytes t n got l m
read_next t n got none m = after_header t n got (process_header m)

-- `Read` of an open stream `t`: a length that is there, or else the next header.
unfoldable pub read_stream : ℕ → ℕ → ℕ → Mux → Came (Str × Mux)
unfolding process_header read_bytes
read_stream t n got m = read_next t n got (m.lengths t) m

announce_length-goes_on : (t l : ℕ) (o : Option ℕ) (m : Mux) → announce_length t l o m ≢ deadlock
announce_length-goes_on t l none m h = cc
announce_length-goes_on t l (some k) m h = cc

close_stream-held : (t : ℕ) (m : Mux) → delete_after t (close_stream true t m) ≡ deadlock
unfolding close_stream drop_stream locked
close_stream-held t m = refl

-- Of the frames that `Write` sends on a stream that is open on the receiving side, those without bytes, and
-- only those, stop the receiver for good: `processHeader` takes such a frame for the end of the stream
-- and closes it with the mutex held, and `Close` waits for the same mutex. A frame with bytes, fewer than
-- 4 GiB of them, does not do this.
pub process_header-write :
    (t : ℕ) (p s : Str) (m : Mux)
    → t < 2 ^ 32
    → length p < 2 ^ 32
    → has_tag t m.streams ≡ true
    → m.buffered ≡ write t p ++ s
    → ((p ≡ []) × (process_header m ≡ deadlock)) ⊎ ((p ≢ []) × (process_header m ≢ deadlock))
unfolding process_header locked on_header
process_header-write t [] s m ht hl open_tag e =
    let header : read_header m.buffered ≡ some (t % 2 ^ 32, 0, s) =
      ap read_header e ∙ read_header-write t [] s in
    let same : t % 2 ^ 32 ≡ t = omega (arith, ht) in
    inl (refl, rw (header, same, open_tag) (close_stream-held t (record m { buffered = s })))
process_header-write t (c ∷ p) s m ht hl open_tag e =
    let header : read_header m.buffered ≡ some (t % 2 ^ 32, length (c ∷ p) % 2 ^ 32, (c ∷ p) ++ s) =
      ap read_header e ∙ read_header-write t (c ∷ p) s in
    let same : t % 2 ^ 32 ≡ t = omega (arith, ht) in
    let whole : length (c ∷ p) % 2 ^ 32 ≡ length (c ∷ p) = omega (arith, hl) in
    let full : (length (c ∷ p) == 0) ≡ false = ground arith in
    let m2 : Mux = record m { buffered = (c ∷ p) ++ s } in
    inr (
      (λ q. cc),
      (rw (header, same, whole, open_tag, full)
          (announce_length-goes_on t (length (c ∷ p)) (m.lengths t) m2)),
    )

take-append : (p s : Str) → take (length p) (p ++ s) ≡ p
take-append [] s = refl
take-append (a ∷ p) s = ap (◌∷◌ a) (take-append p s)

drop-append : (p s : Str) → drop (length p) (p ++ s) ≡ s
drop-append [] s = refl
drop-append (a ∷ p) s = drop-append p s

read_bytes_whole :
    (t n : ℕ) (p s : Str) (m : Mux)
    → length p ≤ n
    → m.buffered ≡ p ++ s
    → read_bytes t n (length p) (length p) m
      ≡ returned (p, record m { buffered = s; lengths = at_tag m.lengths t none })
unfolding read_bytes
read_bytes_whole t n p s m fits e =
    let room : ltb n (length p) ≡ false = ground (arith, fits) in
    let all : ltb (length p) (length p) ≡ false = ground arith in
    rw (e, room, all, take-append p s, drop-append p s) refl

-- `Write` of bytes on a stream that is open on both sides, fewer than 4 GiB: `Read` with a buffer that
-- is long enough returns them when the connection gives them all at once, and leaves what follows.
pub read_stream-write :
    (t n : ℕ) (p s : Str) (m : Mux)
    → t < 2 ^ 32
    → 0 < length p
    → length p < 2 ^ 32
    → length p ≤ n
    → has_tag t m.streams ≡ true
    → m.lengths t ≡ none
    → m.buffered ≡ write t p ++ s
    → read_stream t n (length p) m
      ≡ returned (
        p,
        record m { buffered = s; lengths = at_tag (at_tag m.lengths t (some (length p))) t none },
      )
unfolding read_stream process_header locked on_header read_bytes
read_stream-write t n p s m ht some_bytes small fits open_tag idle e =
    let header : read_header m.buffered ≡ some (t % 2 ^ 32, length p % 2 ^ 32, p ++ s) =
      ap read_header e ∙ read_header-write t p s in
    let same : t % 2 ^ 32 ≡ t = omega (arith, ht) in
    let whole : length p % 2 ^ 32 ≡ length p = omega (arith, small) in
    let full : (length p == 0) ≡ false = ground (arith, some_bytes) in
    let headed : process_header m
        ≡ returned
            (record m { buffered = p ++ s; lengths = at_tag m.lengths t (some (length p)) }) =
      rw (header, same, whole, open_tag, full, idle) refl in
    let m2 : Mux = record m { buffered = p ++ s; lengths = at_tag m.lengths t (some (length p)) } in
    let here : m2.lengths t ≡ some (length p) = ground arith in
    ap (λ o. read_next t n (length p) o m) idle
    ∙ ap (after_header t n (length p)) headed
    ∙ ap (λ o. read_length t n (length p) o m2) here
    ∙ read_bytes_whole t n p s m2 fits refl
