-- ===== src/Apps/Firewall/State.antt =====
-- lang/python/frenetic/examples/firewall.py: the classes Allowed, Trusted and State. The set of
-- pending connections is a list without two equal entries, in the order of insertion; the time is a
-- number that the caller passes.
use frenetic.Base.{
  ℕ, ◌+◌, Bool, true, false, ◌&&◌, List, [], ◌∷◌, ◌++◌, Option, none, some, any, ◌==◌,
  if◌then◌else◌,
}
use frenetic.Base.Text.{Text, text_eq}
use frenetic.Base.Decimal.{show}

-- The four attributes that Allowed.__eq__ compares.
pub record Conn : Type 0 where
  pub trusted_ip : Option Text
  pub trusted_port : Option ℕ
  pub untrusted_ip : Option Text
  pub untrusted_port : Option ℕ

pub record Allowed : Type 0 where
  pub conn : Conn
  pub query_label : Text
  pub last_count : ℕ
  pub time_created : ℕ

unfoldable pub eq_text : Option Text → Option Text → Bool
eq_text none none = true
eq_text (some a) (some b) = text_eq a b
eq_text _ _ = false

unfoldable pub eq_port : Option ℕ → Option ℕ → Bool
eq_port none none = true
eq_port (some a) (some b) = a == b
eq_port _ _ = false

-- Allowed.__eq__
unfoldable pub same_conn : Conn → Conn → Bool
same_conn a b =
    eq_text a.trusted_ip b.trusted_ip
    && eq_port a.trusted_port b.trusted_port
    && eq_text a.untrusted_ip b.untrusted_ip
    && eq_port a.untrusted_port b.untrusted_port

pub record State : Type 0 where
  pub version : ℕ
  pub trusted_ips : List Text
  pub allowed : List Allowed
  pub pending : List Allowed
  pub lbl : ℕ

-- State(trusted_ips, version)
abbrev pub init : List Text → ℕ → State
init ips v = record { version = v; trusted_ips = ips; allowed = []; pending = []; lbl = 0 }

-- `ip in self.state.trusted.ips`; None is not.
unfoldable pub is_trusted : List Text → Option Text → Bool
is_trusted ips none = false
is_trusted ips (some ip) = any (λ t. text_eq t ip) ips

-- `x in xs`, for a list and for a set
unfoldable pub contains : Conn → List Allowed → Bool
contains c xs = any (λ a. same_conn a.conn c) xs

-- `remove`, which takes out the first equal entry; the exception for a missing one is left to the
-- caller, who has tested for it.
unfoldable pub remove : Conn → List Allowed → List Allowed
remove c [] = []
remove c (a ∷ xs) = if same_conn a.conn c then xs else a ∷ remove c xs

-- next_query_label
abbrev pub label : State → Text
label s = show s.lbl

abbrev pub bump : State → State
bump s = record s { lbl = s.lbl + 1 }

abbrev pub allow : Allowed → State → State
allow a s = record s { allowed = s.allowed ++ a ∷ [] }

abbrev pub remove_allowed : Conn → State → State
remove_allowed c s = record s { allowed = remove c s.allowed }

-- A set keeps the entry that it has.
unfoldable pub add_pending : Allowed → State → State
add_pending a s =
    if contains a.conn s.allowed
    then s
    else if contains a.conn s.pending
    then s
    else record s { pending = s.pending ++ a ∷ [] }

abbrev pub remove_pending : Conn → State → State
remove_pending c s = record s { pending = remove c s.pending }
