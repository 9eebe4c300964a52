-- ===== src/Frontend/Toasts.antt =====
-- frontend/src/context/ToastContext.tsx: the notifications on the screen, and the queue behind them. The
-- updates of a handler are applied in the order in which it makes them.
use stellar_kraal.Common.{
  leb, str_eq, if◌then◌else◌, str_eq_refl, Bool-cases, is_some, length, take, drop, filter_by,
  length-append, length-filter_by-le, Dict, get, put, remove, ℕ, zero, suc, ◌+◌, ◌-◌, ◌≤◌, String,
  ◌≡◌, refl, inl, inr, not, List, [], ◌∷◌, ◌++◌, arith, append-nil,
}

pub data ToastVariant : Type 0 where
  success error warning info : ToastVariant

pub record Toast : Type 0 where
  pub id : String
  pub message : String
  pub variant : ToastVariant

abbrev pub max_visible : ℕ
max_visible = 3

abbrev pub dismiss_ms : ℕ
dismiss_ms = 5000

-- `timers` holds the ids whose timer runs, each with the time at which it fires.
pub record Toasts : Type 0 where
  pub visible : List Toast
  pub queue : List Toast
  pub timers : Dict ℕ

abbrev pub no_toasts : Toasts
no_toasts = record { visible = []; queue = []; timers = [] }

abbrev pub without : String → List Toast → List Toast
without id ts = filter_by (λ t. not (str_eq t.id id)) ts

unfoldable pub dismiss : String → Toasts → Toasts
dismiss id s = record {
  visible = without id s.visible;
  queue = without id s.queue;
  timers = remove id s.timers;
}

unfoldable pub flush_queue : Toasts → Toasts
flush_queue s =
    let capacity = max_visible - length s.visible in
    record s { visible = s.visible ++ take capacity s.queue; queue = drop capacity s.queue }

-- `toast`, under the id that `nextId` makes.
unfoldable pub toast : ℕ → String → String → ToastVariant → Toasts → Toasts
toast now id message variant s =
    let t : Toast = record { id = id; message = message; variant = variant } in
    let queued = s.queue ++ (t ∷ []) in
    let visible = if leb max_visible (length s.visible) then s.visible else s.visible ++ (t ∷ []) in
    flush_queue (record {
      visible = visible;
      queue = without id queued;
      timers = put id (now + dismiss_ms) s.timers;
    })

-- A call of `toast` or `dismiss`, and the timer of an id.
pub data Call : Type 0 where
  toasts : ℕ → String → String → ToastVariant → Call
  dismisses fires : String → Call

unfoldable pub act : Call → Toasts → Toasts
unfolding toast dismiss
act (toasts now id message variant) s = toast now id message variant s
act (dismisses id) s = dismiss id s
act (fires id) s = if is_some (get id s.timers) then flush_queue (dismiss id s) else s

abbrev pub run : List Call → Toasts → Toasts
run [] s = s
run (c ∷ cs) s = run cs (act c s)

-- What holds at all times: there are at most three on the screen, and the queue is empty.
abbrev pub IsShort : Toasts → Type 0
IsShort s = (length s.visible ≤ max_visible) × (s.queue ≡ [])

take-nil : {A : Type 0} (n : ℕ) → take {A = A} n [] ≡ []
take-nil zero = refl
take-nil (suc n) = refl

drop-nil : {A : Type 0} (n : ℕ) → drop {A = A} n [] ≡ []
drop-nil zero = refl
drop-nil (suc n) = refl

-- With nothing queued, there is nothing to show.
flush_queue-nil : (s : Toasts) → s.queue ≡ [] → flush_queue s ≡ s
unfolding flush_queue
flush_queue-nil s e =
    rw
      (
        e,
        take-nil {A = Toast} (max_visible - length s.visible),
        drop-nil {A = Toast} (max_visible - length s.visible),
        append-nil s.visible,
      )
      refl

without_self : (t : Toast) → without t.id (t ∷ []) ≡ []
without_self t = rw (str_eq_refl t.id) refl

-- A new toast, with nothing queued: it is on the screen if there is room, and nowhere otherwise.
toast-nil :
    (now : ℕ) (id message : String) (variant : ToastVariant) (s : Toasts)
    → s.queue ≡ []
    → toast now id message variant s ≡ record {
      visible =
          if leb max_visible (length s.visible)
          then s.visible
          else s.visible ++ (record { id = id; message = message; variant = variant } ∷ []);
      queue = [];
      timers = put id (now + dismiss_ms) s.timers;
    }
unfolding toast
toast-nil now id message variant s e =
    rw (e, without_self (record { id = id; message = message; variant = variant }))
      (flush_queue-nil _ refl)

act-IsShort : (c : Call) (s : Toasts) → IsShort s → IsShort (act c s)
unfolding act dismiss
act-IsShort (toasts now id message variant) s (h, e) = rw (toast-nil now id message variant s e) (
  ground (
    arith,
    h,
    length-append s.visible (record { id = id; message = message; variant = variant } ∷ []),
  ),
  refl,
)
act-IsShort (dismisses id) s (h, e) = (
  omega (arith, h, length-filter_by-le (λ (t : Toast). not (str_eq t.id id)) s.visible),
  rw e refl,
)
act-IsShort (fires id) s (h, e) = elim (Bool-cases (is_some (get id s.timers))) [
  | inl k ↦
      rw (act, k, flush_queue-nil (dismiss id s) (rw e refl))
        (
          omega (arith, h, length-filter_by-le (λ (t : Toast). not (str_eq t.id id)) s.visible),
          rw e refl,
        )
  | inr k ↦ rw (act, k) (h, e)
]

run-IsShort : (cs : List Call) (s : Toasts) → IsShort s → IsShort (run cs s)
run-IsShort [] s h = h
run-IsShort (c ∷ cs) s h = run-IsShort cs (act c s) (act-IsShort c s h)

-- After any calls there are at most three toasts on the screen and none in the queue.
pub run-bounded :
    (cs : List Call) → (length (run cs no_toasts).visible ≤ 3) × ((run cs no_toasts).queue ≡ [])
run-bounded cs = run-IsShort cs no_toasts (omega arith, refl)

-- A toast that is raised while three are on the screen is neither shown nor kept for later.
pub toast-run :
    (cs : List Call) (now : ℕ) (id message : String) (variant : ToastVariant)
    → length (run cs no_toasts).visible ≡ 3
    → let s' = toast now id message variant (run cs no_toasts) in
      (s'.visible ≡ (run cs no_toasts).visible) × (s'.queue ≡ [])
toast-run cs now id message variant full =
    rw (toast-nil now id message variant (run cs no_toasts) (run-bounded cs).1)
      (ground (arith, full), refl)
