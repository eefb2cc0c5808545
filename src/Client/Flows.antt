-- ===== src/Client/Flows.antt =====
-- What holds wherever a part of a handler stops: the rules by which statements on the parts are put
-- together. It models no code of its own.
use instant_message.Prelude.{◌≡◌, refl, Bool, true, false, List}
use instant_message.Client.{Client}
use instant_message.Client.Session.{Call, Session, Flow, next, done, M, final, ◌>>=◌}

-- `N` where it goes on, and `D` where it returns.
abbrev pub Yields :
    {R A : Type 0} → (N : A → Session → Type 0) (D : R → Session → Type 0) → Flow R A → Type 0
Yields N D (next a t) = N a t
Yields N D (done r t) = D r t

module _ {R : Type 0} (D : R → Session → Type 0) where
  Yields-next :
      {A B : Type 0} (N : A → Session → Type 0) (O : B → Session → Type 0) (f : Flow R A)
      (k : A → M R B)
      → Yields N D f
      → ((a : A) (t : Session) → N a t → Yields O D (k a t))
      → Yields O D (elim f [ next a t ↦ k a t | done r t ↦ done r t ])
  Yields-next N O (next a t) k h g = g a t h
  Yields-next N O (done r t) k h g = h

  pub Yields-bind :
      {A B : Type 0} (N : A → Session → Type 0) (O : B → Session → Type 0) (m : M R A)
      (k : A → M R B) (s : Session)
      → Yields N D (m s)
      → ((a : A) (t : Session) → N a t → Yields O D (k a t))
      → Yields O D ((m >>= k) s)
  Yields-bind N O m k s h g = Yields-next N O (m s) k h g

-- A test between two parts, with what it says.
pub Yields-choose :
    {R A : Type 0} (N : A → Session → Type 0) (D : R → Session → Type 0) (b : Bool) (m k : M R A)
    (s : Session)
    → (b ≡ true → Yields N D (m s))
    → (b ≡ false → Yields N D (k s))
    → Yields N D ((elim b as (λ x. M R A) [ true ↦ m | false ↦ k ]) s)
Yields-choose N D true m k s h g = h refl
Yields-choose N D false m k s h g = g refl

cong_next :
    {R A B : Type 0} (f : Flow R A) (k l : A → M R B)
    → ((a : A) (t : Session) → k a t ≡ l a t)
    → ◌≡◌ {A = Flow R B}
        (elim f [ next a t ↦ k a t | done r t ↦ done r t ])
        (elim f [ next a t ↦ l a t | done r t ↦ done r t ])
cong_next (next a t) k l h = h a t
cong_next (done r t) k l h = refl

-- Parts that go on alike.
pub bind-cong :
    {R A B : Type 0} (m : M R A) (k l : A → M R B) (s : Session)
    → ((a : A) (t : Session) → k a t ≡ l a t)
    → (m >>= k) s ≡ (m >>= l) s
bind-cong m k l s h = cong_next (m s) k l h

pub Yields-weaken :
    {R A : Type 0} {N O : A → Session → Type 0} {D E : R → Session → Type 0}
    → ((a : A) (t : Session) → N a t → O a t)
    → ((r : R) (t : Session) → D r t → E r t)
    → (f : Flow R A) → Yields N D f
    → Yields O E f
Yields-weaken n d (next a t) h = n a t h
Yields-weaken n d (done r t) h = d r t h

-- One statement on the session, however the part stops.
abbrev pub Within : {R A : Type 0} → (Session → Type 0) → Flow R A → Type 0
Within P = Yields (λ a. P) (λ r. P)

pub Yields-scoped :
    (R : Type 0) {A : Type 0} (N : A → Session → Type 0) (D : R → Session → Type 0) (f : Flow A A)
    → Yields N N f
    → Yields N D (elim f [ next a t ↦ next a t | done a t ↦ next a t ])
Yields-scoped R N D (next a t) h = h
Yields-scoped R N D (done a t) h = h

pub Within-final :
    {R : Type 0} (P : Session → Type 0) (f : Flow R (Unit {0})) → Within P f → P (final f)
Within-final P (next a t) h = h
Within-final P (done r t) h = h

-- The session has the client `c`, and its calls satisfy `Q`.
abbrev pub Keeping : (c : Client) → (List Call → Type 0) → Session → Type 0
Keeping c Q s = (s.client ≡ c) × Q s.trace

Within-ends :
    {A : Type 0} (N : A → Session → Type 0) (P : Session → Type 0) (f : Flow (Unit {0}) A)
    (k : A → M (Unit {0}) (Unit {0}))
    → Yields N (λ r. P) f
    → ((a : A) (t : Session) → N a t → P (final (k a t)))
    → P (final (elim f [ next a t ↦ k a t | done r t ↦ done r t ]))
Within-ends N P (next a t) k h g = g a t h
Within-ends N P (done r t) k h g = h

-- A handler of two parts, the first of which goes on with `N`.
pub Yields-then :
    {A : Type 0} (N : A → Session → Type 0) (P : Session → Type 0) (m : M (Unit {0}) A)
    (k : A → M (Unit {0}) (Unit {0})) (s : Session)
    → Yields N (λ r. P) (m s)
    → ((a : A) (t : Session) → N a t → P (final (k a t)))
    → P (final ((m >>= k) s))
Yields-then N P m k s h g = Within-ends N P (m s) k h g

pub Within-then :
    {A : Type 0} (P : Session → Type 0) (m : M (Unit {0}) A) (k : A → M (Unit {0}) (Unit {0}))
    (s : Session)
    → Within P (m s)
    → ((a : A) (t : Session) → P t → Within P (k a t))
    → P (final ((m >>= k) s))
Within-then P m k s h g = Yields-then (λ a. P) P m k s h (λ a t p. Within-final P (k a t) (g a t p))
