-- ===== src/Server/Options/Valid.antt =====
-- Which options serverOptions.validate of main.go accepts.
use percona_link_mongodb.Bson.{ℤ, pos, negsuc}
use percona_link_mongodb.Prelude.{
  false, ℕ, ◌≤◌, ◌≡◌, ◌≢◌, ◌↔◌, refl, none, arith, ==_iff, string_eq,
}
use percona_link_mongodb.Server.Options.{ServerOptions, is_out_of_range, validate}

-- The port is one of 1025 to 65535, and the two connection strings are given and differ.
pub record IsValid (s : ServerOptions) : Type 0 where
  pub port : (n : ℕ) × (s.port ≡ pos n) × (1025 ≤ n) × (n ≤ 65535)
  pub source_given : s.source_uri ≢ ""
  pub target_given : s.target_uri ≢ ""
  pub differ : s.source_uri ≢ s.target_uri

port_in_range :
    (p : ℤ) → is_out_of_range p ≡ false → (n : ℕ) × (p ≡ pos n) × (1025 ≤ n) × (n ≤ 65535)
unfolding is_out_of_range
port_in_range (pos n) h = (n, refl, ground arith, ground arith)
port_in_range (negsuc n) h = ground arith

range_of_port : (p : ℤ) (n : ℕ) → p ≡ pos n → 1025 ≤ n → n ≤ 65535 → is_out_of_range p ≡ false
unfolding is_out_of_range
range_of_port p n e low high = rw e (ground arith)

valid : (s : ServerOptions) → validate s ≡ none → IsValid s
unfolding validate
valid s h = record {
  port = port_in_range s.port (ground arith);
  source_given = λ e. ground (arith, ==_iff s.source_uri "", ==_iff s.target_uri "");
  target_given = λ e. ground (arith, ==_iff s.source_uri "", ==_iff s.target_uri "");
  differ = λ e. ground (arith, ==_iff s.source_uri s.target_uri);
}

accepted : (s : ServerOptions) → IsValid s → validate s ≡ none
unfolding validate
accepted s v =
    let (n, e, low, high) = v.port in
    let range = range_of_port s.port n e low high in
    ground (
      arith,
      range,
      v.source_given,
      v.target_given,
      v.differ,
      ==_iff s.source_uri "",
      ==_iff s.target_uri "",
      ==_iff s.source_uri s.target_uri,
    )

-- validate accepts exactly the options with a port from 1025 to 65535, both connection strings given,
-- and the two not the same.
pub validate_iff : (s : ServerOptions) → (validate s ≡ none) ↔ IsValid s
validate_iff s = (valid s, accepted s)
