-- ===== src/Frame/Payload.antt =====
-- What `decode_single` takes of the payload of a frame.
use bnl.Prelude.{
  ℕ, ◌+◌, ◌-◌, ◌≤◌, ◌≡◌, refl, sym, ap, ◌∙◌, arith, false, Bool-cases, inl, inr, List, [], ◌∷◌,
  length, length-append, drop, drop-append, Option, none, some, ltb, ltb→le, ◌==◌, ==→eq, IsByte,
  All,
}
use bnl.Error.{Error, Result, ok, err, stuck, delegate, is_delegate}
use bnl.Reader.{Reader, ◌>>=◌, pure, continue}
use bnl.Reader.Sound.{Suffix, Suffix-trans}
use bnl.Frame.{Frame, FrameType, data_frame, frame_type}
use bnl.Frame.Read.{
  uint8_decode, settings_decode, priority_decode, push_promise_decode, skip_unknown, payload_decode,
  check_size,
}
use bnl.Varint
use bnl.Varint.Decode.{decode_cases}
use bnl.Frame.Reads.{Reads, varint-Reads, settings-Reads}

-- What a frame takes of the bytes behind its size `n`, and what that size says of it. Of DATA and
-- HEADERS nothing is taken, of PUSH_PROMISE the identifier, of the others `n` bytes, which are all
-- there.
abbrev pub Payload : Frame → ℕ → List ℕ → List ℕ → Type 0
Payload (data_frame size) n payload rest = (size ≡ n) × (rest ≡ payload)
Payload (Frame.headers size) n payload rest = (size ≡ n) × (rest ≡ payload)
Payload (Frame.push_promise id size) n payload rest =
    (Varint.decode payload ≡ (ok id, rest)) × (length rest + n ≡ length payload + size)
Payload f n payload rest = (n ≤ length payload) × (rest ≡ drop n payload)

-- What comes of the part of a frame behind its size.
abbrev pub Part : Option FrameType → ℕ → List ℕ → Result Frame × List ℕ → Type 0
Part t n payload (ok f, rest) = (t ≡ some (frame_type f)) × Payload f n payload rest
Part t n payload (err delegate, rest) = (t ≡ none) × (n ≤ length payload) × (rest ≡ drop n payload)
Part t n payload (err error, rest) = Unit {0}
Part t n payload (stuck, rest) = Unit {0}

suffix-drop : (s r : List ℕ) → Suffix s r → r ≡ drop (length s - length r) s
suffix-drop s r a =
    let l : length s - length r ≡ length a.front =
      omega (arith, ap length a.split, length-append a.front r) in
    rw l (sym (rw a.split (drop-append a.front r)))

-- The check at the end, whatever the frame is taken to have.
check_size-Part :
    (t : Option FrameType) (f : Frame) (size n : ℕ) (payload rest : List ℕ)
    → t ≡ some (frame_type f)
    → (length payload - length rest ≡ size → Payload f n payload rest)
    → Part t n payload (check_size payload (f, size) rest)
unfolding check_size
check_size-Part t f size n payload rest e k =
    elim (Bool-cases (length payload - length rest == size)) [
      | inl x ↦ rw x (e, k (==→eq _ _ x))
      | inr x ↦ rw x tt
    ]

-- The same for a frame that takes all of its payload.
all-Part :
    (t : Option FrameType) (f : Frame) (n : ℕ) (payload rest : List ℕ)
    → t ≡ some (frame_type f)
    → (n ≤ length payload → rest ≡ drop n payload → Payload f n payload rest)
    → Suffix payload rest
    → Part t n payload (check_size payload (f, n) rest)
all-Part t f n payload rest e k a =
    check_size-Part t f n n payload rest e
      (λ y. k (omega arith) (suffix-drop payload rest a ∙ ap (λ (j : ℕ). drop j payload) y))

not_delegate :
    (t : Option FrameType) (n : ℕ) (payload rest : List ℕ) (e : Error)
    → is_delegate e ≡ false
    → Part t n payload (err e, rest)
not_delegate t n payload rest delegate h = cc
not_delegate t n payload rest _ h = tt

built-Part {ℓ} :
    {A : Type ℓ} (t : Option FrameType) (build : A → Frame) (n : ℕ) (payload : List ℕ)
    (m : Reader A)
    → ((a : A) → t ≡ some (frame_type (build a)))
    → ((a : A) (rest : List ℕ)
        → n ≤ length payload
        → rest ≡ drop n payload
        → Payload (build a) n payload rest)
    → Reads payload (m payload)
    → Part t n payload (((m >>= λ a. pure (build a, n)) >>= check_size payload) payload)
built-Part {A} t build n payload m e k w = checked (m payload) w
  where
    checked :
        (p : Result A × List ℕ)
        → Reads payload p
        → Part t n payload (
            ((λ s. continue {B = Frame × ℕ} p.0 (λ a. pure (build a, n)) p.1)
                >>= check_size payload)
              payload)
    checked (ok a, rest) w = all-Part t (build a) n payload rest (e a) (k a rest) w
    checked (err x, rest) w = not_delegate t n payload rest x w
    checked (stuck, rest) w = tt

skip_unknown-Part :
    (n : ℕ) (payload : List ℕ)
    → Part none n payload ((skip_unknown n >>= check_size payload) payload)
unfolding skip_unknown
skip_unknown-Part n payload = elim (Bool-cases (ltb (length payload) n)) [
  | inl x ↦ rw x tt
  | inr x ↦ rw x (refl, ltb→le _ _ x, refl)
]

push_promise-Part :
    (n : ℕ) (payload : List ℕ)
    → All IsByte payload
    → Part
        (some FrameType.push_promise)
        n
        payload
        ((push_promise_decode n >>= check_size payload) payload)
unfolding push_promise_decode check_size
push_promise-Part n payload h = elim (decode_cases payload h) [
  | inr e ↦ rw (e, push_promise_decode) tt
  | inl (id, r, e, a, hr, lt) ↦ elim (Bool-cases (ltb n (length payload - length r))) [
    | inl x ↦
        rw (e, x, push_promise_decode)
          (check_size-Part _ _ n n payload r refl (λ y. absurd (ground arith)))
    | inr x ↦
        rw (e, x, push_promise_decode)
          (check_size-Part _ _ _ n payload r refl (λ y. (e, ground arith)))
  ]
]

tail : (b : ℕ) (s : List ℕ) → Suffix (b ∷ s) s
tail b s = record { front = b ∷ []; split = refl }

priority-Part :
    (n : ℕ) (payload : List ℕ)
    → All IsByte payload
    → Part
        (some FrameType.priority)
        n
        payload
        (((priority_decode >>= λ f. pure (f, n)) >>= check_size payload) payload)
unfolding priority_decode uint8_decode
priority-Part n [] h = tt
priority-Part n (byte ∷ s) h = elim (decode_cases s h.1) [
  | inr e ↦ rw e tt
  | inl (id, r, e, a, hr, lt) ↦ elim (decode_cases r hr) [
    | inr d ↦ rw (e, d) tt
    | inl (dep, [], d, b, ht, lt') ↦ rw (e, d) tt
    | inl (dep, weight ∷ t, d, b, ht, lt') ↦
        rw (e, d)
          (all-Part _ _ n (byte ∷ s) t refl (λ l q. (l, q))
            (Suffix-trans (Suffix-trans (tail byte s) a) (Suffix-trans b (tail weight t))))
  ]
]

pub payload_decode-Part :
    (t : Option FrameType) (n : ℕ) (payload : List ℕ)
    → All IsByte payload
    → Part t n payload ((payload_decode t n >>= check_size payload) payload)
unfolding payload_decode
payload_decode-Part none n payload h = skip_unknown-Part n payload
payload_decode-Part (some FrameType.data_type) n payload h =
    check_size-Part _ _ 0 n payload payload refl (λ _. (refl, refl))
payload_decode-Part (some FrameType.headers) n payload h =
    check_size-Part _ _ 0 n payload payload refl (λ _. (refl, refl))
payload_decode-Part (some FrameType.priority) n payload h = priority-Part n payload h
payload_decode-Part (some FrameType.push_promise) n payload h = push_promise-Part n payload h
payload_decode-Part (some FrameType.settings) n payload h =
    built-Part _ Frame.settings n payload (settings_decode n) (λ _. refl) (λ _ _ l q. (l, q))
      (settings-Reads n payload h)
payload_decode-Part (some FrameType.cancel_push) n payload h =
    built-Part _ Frame.cancel_push n payload Varint.decode (λ _. refl) (λ _ _ l q. (l, q))
      (varint-Reads payload h)
payload_decode-Part (some FrameType.goaway) n payload h =
    built-Part _ Frame.goaway n payload Varint.decode (λ _. refl) (λ _ _ l q. (l, q))
      (varint-Reads payload h)
payload_decode-Part (some FrameType.max_push_id) n payload h =
    built-Part _ Frame.max_push_id n payload Varint.decode (λ _. refl) (λ _ _ l q. (l, q))
      (varint-Reads payload h)
payload_decode-Part (some FrameType.duplicate_push) n payload h =
    built-Part _ Frame.duplicate_push n payload Varint.decode (λ _. refl) (λ _ _ l q. (l, q))
      (varint-Reads payload h)
