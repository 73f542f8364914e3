-- ===== src/Httpd/Listener.antt =====
-- `http_listener_push`, `httpd_create` and the flags of `httpd_start` of httpd.c: the addresses at
-- which the server listens.
use volans.Prelude.{
  if◌then◌else◌, ℕ, ◌≡◌, refl, ap, subst, ◌∙◌, Bool, true, false, ◌||◌, not, Option, none, some,
  List, [], ◌∷◌, ◌++◌, arith,
}
use volans.Prelude.Int.{ℤ}
use volans.Text.{codes, atoi}

-- AF_INET, AF_INET6 or another number.
pub data Family : Type 0 where
  af_inet : Family
  af_inet6 : Family
  af_other : ℕ → Family

-- `struct http_interface_struct`; `addr` is `none` where it is only cleared.
pub record Interface (Addr : Type 0) : Type 0 where
  pub port : List ℕ
  pub address : List ℕ
  pub family : Family
  pub addr : Option Addr
  pub user : Option (List ℕ)
  pub pass : Option (List ℕ)

-- `struct sockaddr_storage` as far as it is set.
pub data Sockaddr (Addr : Type 0) : Type 0 where
  sockaddr_in : Addr → ℤ → Sockaddr Addr
  sockaddr_in6 : Addr → ℤ → Sockaddr Addr

-- `inet_pton` is that of the system, with `none` for a result other than 1.
module _ {Addr : Type 0} (inet_pton : Family → List ℕ → Option Addr) where
  abbrev pub is_empty : List ℕ → Bool
  is_empty [] = true
  is_empty (b ∷ bs) = false

  -- The address that a push parses: none where there is none, or for another family.
  abbrev pub parsed : Family → List ℕ → Option (Option Addr)
  parsed (af_other n) address = some none
  parsed family [] = some none
  parsed family (b ∷ bs) = elim (inet_pton family (b ∷ bs)) [ none ↦ none | some a ↦ some (some a) ]

  abbrev pub pushed_addr : Option (Option Addr) → Option Addr
  pushed_addr none = none
  pushed_addr (some a) = a

  abbrev pub is_pushed : Option (Option Addr) → Bool
  is_pushed none = false
  is_pushed (some a) = true

  -- `http_listener_push`: whether it returns the interface, or else NULL, and the interfaces.
  unfoldable pub http_listener_push :
      List (Interface Addr)
      → List ℕ
      → Family
      → List ℕ
      → Option (List ℕ)
      → Option (List ℕ)
      → Bool × List (Interface Addr)
  http_listener_push interfaces address family port user pass = (
    is_pushed (parsed family address),
    interfaces
        ++ record {
          port = port;
          address = address;
          family = family;
          addr = pushed_addr (parsed family address);
          user = user;
          pass = pass;
        }
          ∷ [],
  )

  abbrev pub address_or : List ℕ → List ℕ → List ℕ
  address_or [] other = other
  address_or (b ∷ bs) other = b ∷ bs

  abbrev pub bound : (Addr → ℤ → Sockaddr Addr) → Option Addr → Option ℤ → Option (Sockaddr Addr)
  bound f none port = none
  bound f (some a) none = none
  bound f (some a) (some p) = some (f a p)

  -- The body of the loop of `httpd_create`. `none` is inet_pton failing, and a port that atoi does
  -- not read as an int; the port is the number before htons.
  abbrev pub bind_one : Family → List ℕ → Option ℤ → Option (Sockaddr Addr)
  bind_one af_inet6 address port =
      bound (λ a p. sockaddr_in6 a p) (inet_pton af_inet6 (address_or address (codes "::0"))) port
  bind_one _ address port =
      bound (λ a p. sockaddr_in a p) (inet_pton af_inet (address_or address (codes "0.0.0.0"))) port

  abbrev pub push_ifs :
      Option (Sockaddr Addr) → Option (List (Sockaddr Addr)) → Option (List (Sockaddr Addr))
  push_ifs none rest = none
  push_ifs (some a) none = none
  push_ifs (some a) (some rest) = some (a ∷ rest)

  -- `httpd_create`: the addresses `ifs`, and `none` is NULL.
  unfoldable pub httpd_create : List (Interface Addr) → Option (List (Sockaddr Addr))
  httpd_create [] = some []
  httpd_create (i ∷ is) = push_ifs (bind_one i.family i.address (atoi i.port)) (httpd_create is)

-- The choice of `httpd_start` beside MHD_USE_DEBUG and MHD_USE_SELECT_INTERNALLY.
pub data Stack : Type 0 where
  no_flag : Stack
  use_ipv6 : Stack
  use_dual_stack : Stack

abbrev pub flag_for : Bool × Bool → Stack
flag_for (true, true) = use_dual_stack
flag_for (false, true) = use_ipv6
flag_for (_, false) = no_flag

module _ {Addr : Type 0} where
  abbrev pub is_ipv4 : Sockaddr Addr → Bool
  is_ipv4 (sockaddr_in a p) = true
  is_ipv4 (sockaddr_in6 a p) = false

  abbrev pub is_ipv6 : Sockaddr Addr → Bool
  is_ipv6 (sockaddr_in a p) = false
  is_ipv6 (sockaddr_in6 a p) = true

  -- The loop of `httpd_start`: `useipv4` and `useipv6`.
  abbrev pub families : List (Sockaddr Addr) → Bool × Bool → Bool × Bool
  families [] found = found
  families (i ∷ is) (useipv4, useipv6) = families is (useipv4 || is_ipv4 i, useipv6 || is_ipv6 i)

  unfoldable pub httpd_start_flags : List (Sockaddr Addr) → Stack
  httpd_start_flags ifs = flag_for (families ifs (false, false))

-- Whether an interface of the configuration is one of IPv6; any other is taken for one of IPv4.
abbrev pub is_inet6 : Family → Bool
is_inet6 af_inet6 = true
is_inet6 _ = false

abbrev pub any_family : {Addr : Type 0} → (Bool → Bool) → List (Interface Addr) → Bool
any_family p [] = false
any_family p (i ∷ is) = p (is_inet6 i.family) || any_family p is

module _ {Addr : Type 0} (inet_pton : Family → List ℕ → Option Addr) where
  bind_one-family :
      (family : Family) (address : List ℕ) (port : Option ℤ) (s : Sockaddr Addr)
      → bind_one inet_pton family address port ≡ some s
      → (is_ipv4 s ≡ not (is_inet6 family)) × (is_ipv6 s ≡ is_inet6 family)
  bind_one-family af_inet6 address port s h = ground (arith, h)
  bind_one-family af_inet address port s h = ground (arith, h)
  bind_one-family (af_other n) address port s h = ground (arith, h)

  families-httpd_create :
      (is : List (Interface Addr)) (ifs : List (Sockaddr Addr)) (a b : Bool)
      → httpd_create inet_pton is ≡ some ifs
      → families ifs (a, b) ≡ (a || any_family not is, b || any_family (λ c. c) is)
  unfolding httpd_create
  families-httpd_create [] [] a b h = ground arith
  families-httpd_create [] (i ∷ ifs) a b h = cc
  families-httpd_create (i ∷ is) ifs a b h =
      by_parts (bind_one inet_pton i.family i.address (atoi i.port)) refl
        (httpd_create inet_pton is) (families-httpd_create is) ifs h
    where
      either :
          (p q c m n : Bool)
          → p ≡ not c
          → q ≡ c
          → ◌≡◌ {A = Bool × Bool} ((a || p) || m, (b || q) || n) (a || (not c || m), b || (c || n))
      either p q c m n e f = ground arith

      by_parts :
          (o : Option (Sockaddr Addr))
          → bind_one inet_pton i.family i.address (atoi i.port) ≡ o
          → (rest : Option (List (Sockaddr Addr)))
          → ((ifs : List (Sockaddr Addr)) (a b : Bool)
              → rest ≡ some ifs
              → families ifs (a, b) ≡ (a || any_family not is, b || any_family (λ c. c) is))
          → (ifs : List (Sockaddr Addr)) → push_ifs inet_pton o rest ≡ some ifs
          → families ifs (a, b) ≡ (a || any_family not (i ∷ is), b || any_family (λ c. c) (i ∷ is))
      by_parts none e rest ih ifs h = cc
      by_parts (some s) e none ih ifs h = cc
      by_parts (some s) e (some l) ih [] h = cc
      by_parts (some s) e (some l) ih (x ∷ xs) h =
          let (f, g) = bind_one-family i.family i.address (atoi i.port) s e in
          let same : s ≡ x = cc h in
          let tail : l ≡ xs = cc h in
          let f' : is_ipv4 x ≡ not (is_inet6 i.family) =
            subst (λ y. is_ipv4 y ≡ not (is_inet6 i.family)) same f in
          let g' : is_ipv6 x ≡ is_inet6 i.family =
            subst (λ y. is_ipv6 y ≡ is_inet6 i.family) same g in
          ih xs (a || is_ipv4 x) (b || is_ipv6 x) (ap some tail)
          ∙ either (is_ipv4 x) (is_ipv6 x) (is_inet6 i.family) (any_family not is)
              (any_family (λ c. c) is) f' g'

  -- A server that httpd_create made for the interfaces of a configuration is started with the flag
  -- for both families exactly if some interface is one of IPv6 and some is not, with that of IPv6
  -- if there is one and all are, and else with none.
  pub httpd_start_flags-httpd_create :
      (is : List (Interface Addr)) (ifs : List (Sockaddr Addr))
      → httpd_create inet_pton is ≡ some ifs
      → httpd_start_flags ifs ≡ (
          if any_family (λ c. c) is
          then (if any_family not is then use_dual_stack else use_ipv6)
          else no_flag)
  unfolding httpd_start_flags
  httpd_start_flags-httpd_create is ifs h =
      ap flag_for (families-httpd_create is ifs false false h)
      ∙ flags (any_family not is) (any_family (λ c. c) is)
    where
      flags :
          (a b : Bool)
          → flag_for (a, b) ≡ (if b then (if a then use_dual_stack else use_ipv6) else no_flag)
      flags true true = refl
      flags true false = refl
      flags false true = refl
      flags false false = refl
