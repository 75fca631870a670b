-- ===== src/ServerSettings/Bounds.antt =====
-- The ranges of the numbers that `settings::load` of src/c++/systemicai/http/server/settings.h gives.
use advanced_flex_server.Common.{
  String, ℕ, ◌+◌, ◌^◌, ◌<◌, Bytes, Option, none, some, ◌≡◌, refl, sym, subst, ◌⊎◌, inl, inr, arith,
  ℤ, pos, negsuc, IsInt, to_size, Option-cases,
}
use advanced_flex_server.PropertyTree.{PropertyTree}
use advanced_flex_server.ServerSettings.{load, or_default, parsed}
use advanced_flex_server.ServerSettings.RoundTrip.{IsInRange}

-- The value is what the text gives, or the default where there is no text, or none that can be parsed.
abbrev pub ComesFrom : {A : Type 0} → (Bytes → Option A) → Option Bytes → A → A → Type 0
ComesFrom parse found default a =
    ((text : Bytes) × (found ≡ some text) × (parse text ≡ some a))
    ⊎ (((found ≡ none) ⊎ ((text : Bytes) × (found ≡ some text) × (parse text ≡ none)))
        × (a ≡ default))

or_default-ComesFrom :
    {A : Type 0} (parse : Bytes → Option A) (found : Option Bytes) (default : A)
    → ComesFrom parse found default (or_default (parsed parse found) default)
or_default-ComesFrom parse none default = inr (inl refl, refl)
or_default-ComesFrom parse (some text) default = elim (Option-cases (parse text)) [
  | inl bad ↦ rw bad (inr (inr (text, refl, bad), refl))
  | inr (a, good) ↦ rw good (inl (text, refl, good))
]

-- What each parsed value satisfies, and the default, holds of such a value.
ComesFrom-kept :
    {A : Type 0} (P : A → Type 0) (parse : Bytes → Option A) (found : Option Bytes) (default a : A)
    → ((text : Bytes) (b : A) → parse text ≡ some b → P b)
    → P default
    → ComesFrom parse found default a
    → P a
ComesFrom-kept P parse found default a h d (inl (text, _, good)) = h text a good
ComesFrom-kept P parse found default a h d (inr (_, e)) = subst P (sym e) d

-- A signed number as a `size_t`: itself, or 2 ^ 64 less its absolute value if it is negative.
abbrev pub IsConverted : ℤ → ℕ → Type 0
IsConverted i n = (i ≡ pos n) ⊎ ((k : ℕ) × (i ≡ negsuc k) × (n + (k + 1) ≡ 2 ^ 64))

to_size-IsConverted : (i : ℤ) → IsInt i → IsConverted i (to_size i)
to_size-IsConverted (pos n) h = inl (ground arith)
to_size-IsConverted (negsuc k) h = inr (k, refl, ground arith)

module _ (p : PropertyTree) (to_lower : Bytes → Bytes) (tr : p.Tree) where
  port_from :
      ComesFrom p.parse_ushort
        (p.find tr "service.interface.port")
        8080
        (load p to_lower tr).interface_port
  unfolding load
  port_from = or_default-ComesFrom p.parse_ushort (p.find tr "service.interface.port") 8080

  threads_from :
      ComesFrom p.parse_int (p.find tr "service.thread.io") (pos 1) (load p to_lower tr).thread_io
  unfolding load
  threads_from = or_default-ComesFrom p.parse_int (p.find tr "service.thread.io") (pos 1)

  -- Where a timeout comes from.
  abbrev pub TimeoutFrom : String → ℕ → Type 0
  TimeoutFrom key n = ComesFrom p.parse_size (p.find tr key) 300 n

  timeouts_from :
      TimeoutFrom "service.timeout.get" (load p to_lower tr).timeout_get
      × TimeoutFrom "service.timeout.put" (load p to_lower tr).timeout_put
      × TimeoutFrom "service.timeout.post" (load p to_lower tr).timeout_post
  unfolding load
  timeouts_from = (
    or_default-ComesFrom p.parse_size (p.find tr "service.timeout.get") 300,
    or_default-ComesFrom p.parse_size (p.find tr "service.timeout.put") 300,
    or_default-ComesFrom p.parse_size (p.find tr "service.timeout.post") 300,
  )

  timeout_range : (key : String) (n : ℕ) → TimeoutFrom key n → n < 2 ^ 64
  timeout_range key n from =
      ComesFrom-kept (λ m. m < 2 ^ 64) p.parse_size (p.find tr key) 300 n p.parse_size_range
        (omega arith) from

  load-IsInRange : IsInRange (load p to_lower tr)
  load-IsInRange =
      let (get_from, put_from, post_from) = timeouts_from in
      record {
        port =
            ComesFrom-kept (λ n. n < 2 ^ 16) p.parse_ushort (p.find tr "service.interface.port")
              8080 _ p.parse_ushort_range (omega arith) port_from;
        threads =
            ComesFrom-kept IsInt p.parse_int (p.find tr "service.thread.io") (pos 1) _
              p.parse_int_range (omega arith) threads_from;
        get = timeout_range "service.timeout.get" _ get_from;
        put = timeout_range "service.timeout.put" _ put_from;
        post = timeout_range "service.timeout.post" _ post_from;
      }

  header_from :
      (i : ℤ) × ComesFrom p.parse_int (p.find tr "service.timeout.header") (pos 5) i
      × IsConverted i (load p to_lower tr).timeout_header
  unfolding load
  header_from =
      let found = p.find tr "service.timeout.header" in
      let from = or_default-ComesFrom p.parse_int found (pos 5) in
      let in_range =
        ComesFrom-kept IsInt p.parse_int found (pos 5) _ p.parse_int_range (omega arith) from in
      (_, from, to_size-IsConverted _ in_range)

  -- Whatever a settings file holds, each number that is loaded is the one that its text gives, or the
  -- default where there is no such text or none that can be parsed: the port, by default 8080, the
  -- threads, by default 1, and three timeouts, by default 300; and they are in the ranges of their
  -- types. The timeout_header is read as an int, by default 5: one that is not negative is taken as
  -- it is, and a negative one comes out as 2 ^ 64 less its absolute value.
  pub load-bounds :
      ComesFrom p.parse_ushort
        (p.find tr "service.interface.port")
        8080
        (load p to_lower tr).interface_port
      × ComesFrom p.parse_int (p.find tr "service.thread.io") (pos 1) (load p to_lower tr).thread_io
      × TimeoutFrom "service.timeout.get" (load p to_lower tr).timeout_get
      × TimeoutFrom "service.timeout.put" (load p to_lower tr).timeout_put
      × TimeoutFrom "service.timeout.post" (load p to_lower tr).timeout_post
      × IsInRange (load p to_lower tr)
      × ((i : ℤ) × ComesFrom p.parse_int (p.find tr "service.timeout.header") (pos 5) i
          × IsConverted i (load p to_lower tr).timeout_header)
  load-bounds =
      let (get_from, put_from, post_from) = timeouts_from in
      (port_from, threads_from, get_from, put_from, post_from, load-IsInRange, header_from)
