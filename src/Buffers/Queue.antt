-- ===== src/Buffers/Queue.antt =====
-- The circular buffer as a queue of at most three pointers.
use avocad_os.Base.{
  ℕ, zero, suc, ◌+◌, ◌-◌, ◌%◌, ◌≤◌, ◌<◌, ◌≡◌, ◌∙◌, refl, ap, ap₂, sym, inl, inr, true, false, List,
  [], ◌∷◌, ◌++◌, arith, ◌==◌, get_or, set, length, get_or-set_self, get_or-set_ne, length-set,
  Bool-cases, if◌then◌else◌,
}
use avocad_os.Buffers.{CircularBuffer, buffer_size, init, full, empty, push_back, pop_front}

-- The slot after `i`.
abbrev pub next_slot : ℕ → ℕ
next_slot i = (i + 1) % buffer_size

-- The `n` pointers from slot `i` on, round the end of the array.
abbrev pub queued : List ℕ → ℕ → ℕ → List ℕ
queued b i zero = []
queued b i (suc n) = get_or b i 0 ∷ queued b (next_slot i) n

-- What a buffer holds, the oldest first.
abbrev pub contents : CircularBuffer → List ℕ
contents cb = queued cb.buffer cb.end cb.count

pub record IsValid (cb : CircularBuffer) : Type 0 where
  pub len : length cb.buffer ≡ buffer_size
  pub end_lt : cb.end < buffer_size
  pub count_le : cb.count ≤ buffer_size
  pub head_is : cb.head ≡ (cb.end + cb.count) % buffer_size

pub init-IsValid : IsValid init
unfolding init
init-IsValid = record { len = refl; end_lt = omega arith; count_le = omega arith; head_is = refl }

-- The slots that are read are not the one that is written.
queued-set :
    (b : List ℕ) (i n h v : ℕ)
    → i < buffer_size
    → n < buffer_size
    → h ≡ (i + n) % buffer_size
    → queued (set b h v) i n ≡ queued b i n
queued-set b i zero h v lt ln e = refl
queued-set b i (suc n) h v lt ln e =
    ap₂ (λ x xs. x ∷ xs) (get_or-set_ne b h i v 0 (λ q. absurd (omega arith)))
      (queued-set b (next_slot i) n h v (omega arith) (omega arith) (omega arith))

queued-snoc :
    (b : List ℕ) (i n h : ℕ)
    → i < buffer_size
    → h ≡ (i + n) % buffer_size
    → queued b i (suc n) ≡ queued b i n ++ get_or b h 0 ∷ []
queued-snoc b i zero h lt e = let eq : i ≡ h = omega arith in ap (λ j. get_or b j 0 ∷ []) eq
queued-snoc b i (suc n) h lt e =
    ap (◌∷◌ (get_or b i 0)) (queued-snoc b (next_slot i) n h (omega arith) (omega arith))

length-queued : (b : List ℕ) (i n : ℕ) → length (queued b i n) ≡ n
length-queued b i zero = refl
length-queued b i (suc n) = ap suc (length-queued b (next_slot i) n)

-- The queue that the buffer promises: a push onto a full one is refused with 0.
abbrev pub enqueue : List ℕ → ℕ → List ℕ × ℕ
enqueue xs value = if length xs == buffer_size then (xs, 0) else (xs ++ value ∷ [], 1)

-- NULL for an empty one.
abbrev pub dequeue : List ℕ → List ℕ × ℕ
dequeue [] = ([], 0)
dequeue (x ∷ xs) = (xs, x)

push-full :
    (cb : CircularBuffer) (v : ℕ) → (cb.count == buffer_size) ≡ true → push_back cb v ≡ (cb, 0)
unfolding push_back full
push-full cb v e = rw (push_back, e)

pushed : CircularBuffer → ℕ → CircularBuffer
pushed cb v = record {
  buffer = set cb.buffer cb.head v;
  head = (cb.head + 1) % buffer_size;
  end = cb.end;
  count = cb.count + 1;
}

push-room :
    (cb : CircularBuffer) (v : ℕ)
    → (cb.count == buffer_size) ≡ false
    → push_back cb v ≡ (pushed cb v, 1)
unfolding push_back full pushed
push-room cb v e = rw (push_back, e)

pushed-IsValid :
    (cb : CircularBuffer) (v : ℕ) → IsValid cb → cb.count < buffer_size → IsValid (pushed cb v)
unfolding pushed
pushed-IsValid cb v i lt =
    let e = i.end_lt in
    let h = i.head_is in
    record {
      len = length-set cb.buffer cb.head v ∙ i.len;
      end_lt = e;
      count_le = omega arith;
      head_is = omega arith;
    }

pushed-contents :
    (cb : CircularBuffer) (v : ℕ)
    → IsValid cb
    → cb.count < buffer_size
    → contents (pushed cb v) ≡ contents cb ++ v ∷ []
unfolding pushed
pushed-contents cb v i lt =
    let e = i.end_lt in
    let h = i.head_is in
    let l = i.len in
    let s : cb.count + 1 ≡ suc cb.count = omega arith in
    ap (queued (set cb.buffer cb.head v) cb.end) s
    ∙ queued-snoc (set cb.buffer cb.head v) cb.end cb.count cb.head e h
    ∙ ap₂ (λ xs x. xs ++ x ∷ []) (queued-set cb.buffer cb.end cb.count cb.head v e lt h)
        (get_or-set_self cb.buffer cb.head v 0 (omega arith))

-- On a valid buffer `push_back` does what the queue of at most three pointers does on the contents,
-- with the same result, and leaves a valid buffer.
pub push_back-enqueue :
    (cb : CircularBuffer) (value : ℕ)
    → IsValid cb
    → IsValid (push_back cb value).0
      × (contents (push_back cb value).0 ≡ (enqueue (contents cb) value).0)
      × ((push_back cb value).1 ≡ (enqueue (contents cb) value).1)
push_back-enqueue cb v i = elim (Bool-cases (cb.count == buffer_size)) [
  | inl e ↦
      let n = ap (λ k. k == buffer_size) (length-queued cb.buffer cb.end cb.count) in
      rw (push-full cb v e, n, e) (i, refl, refl)
  | inr e ↦
      let n = ap (λ k. k == buffer_size) (length-queued cb.buffer cb.end cb.count) in
      let c = i.count_le in
      let lt : cb.count < buffer_size = ground arith in
      rw (push-room cb v e, n, e) (pushed-IsValid cb v i lt, pushed-contents cb v i lt, refl)
]

pop-empty : (cb : CircularBuffer) → (cb.count == 0) ≡ true → pop_front cb ≡ (cb, 0)
unfolding pop_front empty
pop-empty cb e = rw (pop_front, e)

popped : CircularBuffer → CircularBuffer
popped cb = record cb { end = (cb.end + 1) % buffer_size; count = cb.count - 1 }

pop-some :
    (cb : CircularBuffer)
    → (cb.count == 0) ≡ false
    → pop_front cb ≡ (popped cb, get_or cb.buffer cb.end 0)
unfolding pop_front empty popped
pop-some cb e = rw (pop_front, e)

popped-IsValid : (cb : CircularBuffer) → IsValid cb → 0 < cb.count → IsValid (popped cb)
unfolding popped
popped-IsValid cb i lt =
    let e = i.end_lt in
    let c = i.count_le in
    let h = i.head_is in
    record { len = i.len; end_lt = omega arith; count_le = omega arith; head_is = omega arith }

popped-contents :
    (cb : CircularBuffer)
    → 0 < cb.count
    → contents cb ≡ get_or cb.buffer cb.end 0 ∷ contents (popped cb)
unfolding popped
popped-contents cb lt =
    let e : cb.count ≡ suc (cb.count - 1) = omega arith in ap (queued cb.buffer cb.end) e

-- On a valid buffer `pop_front` takes what the queue takes from the contents, the oldest pointer or
-- NULL when there is none, and leaves a valid buffer.
pub pop_front-dequeue :
    (cb : CircularBuffer)
    → IsValid cb
    → IsValid (pop_front cb).0
      × (contents (pop_front cb).0 ≡ (dequeue (contents cb)).0)
      × ((pop_front cb).1 ≡ (dequeue (contents cb)).1)
pop_front-dequeue cb i = elim (Bool-cases (cb.count == 0)) [
  | inl e ↦
      let z : cb.count ≡ 0 = ground arith in
      let c : contents cb ≡ [] = ap (queued cb.buffer cb.end) z in
      rw (pop-empty cb e)
        (i, c ∙ sym (ap (λ xs. (dequeue xs).0) c), sym (ap (λ xs. (dequeue xs).1) c))
  | inr e ↦
      let lt : 0 < cb.count = ground arith in
      let c = popped-contents cb lt in
      rw (pop-some cb e) (
        popped-IsValid cb i lt,
        sym (ap (λ xs. (dequeue xs).0) c),
        sym (ap (λ xs. (dequeue xs).1) c),
      )
]
