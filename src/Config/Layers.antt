-- ===== src/Config/Layers.antt =====
-- Settings of several sources over one another (config.go).
use gocachez.Prelude.{◌≡◌, refl, ap, ◌∙◌, Option, none, some}
use gocachez.Config.Sources.{given}

abbrev pub or_else {ℓ} : {A : Type ℓ} → Option A → Option A → Option A
or_else (some a) b = some a
or_else none b = b

-- A setting that needs no parsing.
abbrev pub as_given {ℓ} : {A : Type ℓ} → Option A → A → A
as_given none old = old
as_given (some a) old = a

as_given-or_else :
    {A : Type 0} (weak strong : Option A) (x : A)
    → as_given strong (as_given weak x) ≡ as_given (or_else strong weak) x
as_given-or_else weak none x = refl
as_given-or_else weak (some s) x = refl

given-or_else :
    {A B : Type 0} (parse : A → Option B) (weak strong : Option A) (x y z : B)
    → given parse weak x ≡ some y
    → given parse strong y ≡ some z
    → given parse (or_else strong weak) x ≡ some z
unfolding given
given-or_else parse none none x y z h k = h ∙ k
given-or_else parse (some w) none x y z h k = h ∙ k
given-or_else parse weak (some s) x y z h k = k

-- Three sources over a start.
pub given_layers :
    {A B : Type 0} (parse : A → Option B) (f e g : Option A) (x y z w v : B)
    → given parse f x ≡ some y
    → given parse e y ≡ some z
    → given parse g z ≡ some w
    → w ≡ v
    → given parse (or_else g (or_else e f)) x ≡ some v
given_layers parse f e g x y z w v p q r s =
    given-or_else parse (or_else e f) g x z v (given-or_else parse f e x y z p q) (r ∙ ap some s)

pub as_given_layers :
    {A : Type 0} (f e g : Option A) (x y z w : A)
    → y ≡ as_given f x
    → z ≡ as_given e y
    → w ≡ as_given g z
    → w ≡ as_given (or_else g (or_else e f)) x
as_given_layers f e g x y z w p q r =
    r
    ∙ ap (as_given g) (q ∙ ap (as_given e) p ∙ as_given-or_else f e x)
    ∙ as_given-or_else (or_else e f) g x
