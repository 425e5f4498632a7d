-- ===== src/Metadata/Additions.antt =====
-- What lookups find after a new dimension, variable, attribute or container is added.
use monio.Base.{
  ◌≢◌, ◌∙◌, sym, ==_ne, ==_self, String, ◌≡◌, false, none, some, ℤ, arith, ◌==◌, string_eq,
  if◌then◌else◌,
}
use monio.Map.{Map, lookup, contains}
use monio.Map.Laws.{lookup-insert}
use monio.Heap.{Pointer}
use monio.Metadata.{Metadata, add_dimension, add_variable}
use monio.Container.{DataContainer, get_name}
use monio.Data.{Data, add_container}

pub contains-none {ℓ} :
    {V : Type ℓ} (k : String) (m : Map V) → lookup k m ≡ none → contains k m ≡ false
unfolding contains
contains-none k m h = rw (h, contains)

pub lookup-add_dimension :
    (m : Metadata) (name k : String) (value : ℤ)
    → lookup name m.dimensions ≡ none
    → lookup k (add_dimension m name value).dimensions
      ≡ (if name == k then some value else lookup k m.dimensions)
unfolding add_dimension
lookup-add_dimension m name k value h =
    rw (contains-none name m.dimensions h) (lookup-insert name k value m.dimensions h)

pub lookup-add_variable :
    (m : Metadata) (name k : String) (p : Pointer)
    → lookup name m.variables ≡ none
    → lookup k (add_variable m name p).variables
      ≡ (if name == k then some p else lookup k m.variables)
unfolding add_variable
lookup-add_variable m name k p h =
    rw (contains-none name m.variables h) (lookup-insert name k p m.variables h)

pub lookup-add_container :
    (d : Data) (c : DataContainer) (k : String)
    → lookup (get_name c) d.data_containers ≡ none
    → lookup k (add_container d c).data_containers
      ≡ (if get_name c == k then some c else lookup k d.data_containers)
unfolding add_container
lookup-add_container d c k h =
    rw (contains-none (get_name c) d.data_containers h)
      (lookup-insert (get_name c) k c d.data_containers h)

-- An addition to one of the maps leaves the others.
pub add_dimension-variables :
    (m : Metadata) (name : String) (value : ℤ)
    → (add_dimension m name value).variables ≡ m.variables
unfolding add_dimension
add_dimension-variables m name value = ground arith

pub add_variable-dimensions :
    (m : Metadata) (name : String) (p : Pointer) → (add_variable m name p).dimensions ≡ m.dimensions
unfolding add_variable
add_variable-dimensions m name p = ground arith

pub add_dimension-global_attrs :
    (m : Metadata) (name : String) (value : ℤ)
    → (add_dimension m name value).global_attrs ≡ m.global_attrs
unfolding add_dimension
add_dimension-global_attrs m name value = ground arith

pub add_variable-global_attrs :
    (m : Metadata) (name : String) (p : Pointer)
    → (add_variable m name p).global_attrs ≡ m.global_attrs
unfolding add_variable
add_variable-global_attrs m name p = ground arith

-- Two additions under different names, which keep all others.
pub lookup-two_dimensions :
    (m : Metadata) (a b : String) (s t : ℤ)
    → a ≢ b
    → lookup a m.dimensions ≡ none
    → lookup b m.dimensions ≡ none
    → (lookup a (add_dimension (add_dimension m a s) b t).dimensions ≡ some s)
      × (lookup b (add_dimension (add_dimension m a s) b t).dimensions ≡ some t)
      × ((k : String)
          → k ≢ a
          → k ≢ b
          → lookup k (add_dimension (add_dimension m a s) b t).dimensions ≡ lookup k m.dimensions)
lookup-two_dimensions m a b s t ne ha hb =
    let m' = add_dimension m a s in
    let free : lookup b m'.dimensions ≡ none =
      lookup-add_dimension m a b s ha ∙ (rw (==_ne a b ne) hb) in
    (
      lookup-add_dimension m' b a t free
          ∙ (rw (==_ne b a (λ p. ne (sym p))) (lookup-add_dimension m a a s ha ∙ (rw (==_self a)))),
      lookup-add_dimension m' b b t free ∙ (rw (==_self b)),
      λ k na nb.
          lookup-add_dimension m' b k t free
          ∙ (rw (==_ne b k (λ p. nb (sym p)))
              (lookup-add_dimension m a k s ha ∙ (rw (==_ne a k (λ p. na (sym p)))))),
    )

pub lookup-two_variables :
    (m : Metadata) (a b : String) (p q : Pointer)
    → a ≢ b
    → lookup a m.variables ≡ none
    → lookup b m.variables ≡ none
    → (lookup a (add_variable (add_variable m a p) b q).variables ≡ some p)
      × (lookup b (add_variable (add_variable m a p) b q).variables ≡ some q)
      × ((k : String)
          → k ≢ a
          → k ≢ b
          → lookup k (add_variable (add_variable m a p) b q).variables ≡ lookup k m.variables)
lookup-two_variables m a b p q ne ha hb =
    let m' = add_variable m a p in
    let free : lookup b m'.variables ≡ none =
      lookup-add_variable m a b p ha ∙ (rw (==_ne a b ne) hb) in
    (
      lookup-add_variable m' b a q free
          ∙ (rw (==_ne b a (λ e. ne (sym e))) (lookup-add_variable m a a p ha ∙ (rw (==_self a)))),
      lookup-add_variable m' b b q free ∙ (rw (==_self b)),
      λ k na nb.
          lookup-add_variable m' b k q free
          ∙ (rw (==_ne b k (λ e. nb (sym e)))
              (lookup-add_variable m a k p ha ∙ (rw (==_ne a k (λ e. na (sym e)))))),
    )

pub lookup-two_containers :
    (d : Data) (a b : String) (c e : DataContainer)
    → get_name c ≡ a
    → get_name e ≡ b
    → a ≢ b
    → lookup a d.data_containers ≡ none
    → lookup b d.data_containers ≡ none
    → (lookup a (add_container (add_container d c) e).data_containers ≡ some c)
      × (lookup b (add_container (add_container d c) e).data_containers ≡ some e)
      × ((k : String)
          → k ≢ a
          → k ≢ b
          → lookup k (add_container (add_container d c) e).data_containers
            ≡ lookup k d.data_containers)
lookup-two_containers d a b c e ca eb ne ha hb =
    let d' = add_container d c in
    let c_free : lookup (get_name c) d.data_containers ≡ none = rw ca ha in
    let b_free : lookup b d'.data_containers ≡ none =
      lookup-add_container d c b c_free ∙ (rw (ca, ==_ne a b ne) hb) in
    let e_free : lookup (get_name e) d'.data_containers ≡ none = rw eb b_free in
    (
      lookup-add_container d' e a e_free
          ∙ (rw (eb, ==_ne b a (λ p. ne (sym p)))
              (lookup-add_container d c a c_free ∙ (rw (ca, ==_self a)))),
      lookup-add_container d' e b e_free ∙ (rw (eb, ==_self b)),
      λ k na nb.
          lookup-add_container d' e k e_free
          ∙ (rw (eb, ==_ne b k (λ p. nb (sym p)))
              (lookup-add_container d c k c_free ∙ (rw (ca, ==_ne a k (λ p. na (sym p)))))),
    )
