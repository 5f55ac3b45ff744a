-- ===== src/Packet/Roundtrip.antt =====
-- lang/python/frenetic/packet.py: from_payload after to_payload, and what to_payload cannot send.
use frenetic.Base.{
  ℕ, false, ◌≡◌, List, [], ◌∷◌, ◌++◌, Option, none, some, ok, arith, All, is_some, sym, ap, ◌==◌,
  ◌∙◌, failure, name_error, true, refl, Result, err, ◌>>=◌, ◌||◌, if◌then◌else◌, Bool-cases, inl,
  inr,
}
use mathlib.Core.List.{append_assoc, append-nil}
use frenetic.Base.Text.{Text}
use frenetic.Packet.Defs.{Packet, Protocol, empty}
use frenetic.Packet.Decode.{read_headers, from_payload}
use frenetic.Packet.Match.{is_number}
use frenetic.Packet.Encode.{given, inner, check_ip, to_protocols, to_payload}

-- A header that from_payload keeps as it is.
abbrev pub IsUnknown : Protocol → Type 0
IsUnknown (Protocol.unknown name contents) = Unit
IsUnknown _ = ⊥

read_headers-unknown :
    (pkt : Packet) (ps : List Protocol)
    → All IsUnknown ps
    → read_headers pkt ps ≡ ok (record pkt { unknown_headers = pkt.unknown_headers ++ ps })
unfolding read_headers
read_headers-unknown pkt [] h =
    ap (λ l. ok (record pkt { unknown_headers = l })) (sym (append-nil _))
read_headers-unknown pkt (Protocol.unknown name contents ∷ ps) h =
    read_headers-unknown
      (record pkt { unknown_headers = pkt.unknown_headers ++ Protocol.unknown name contents ∷ [] })
      ps h.1
    ∙ ap (λ l. ok (record pkt { unknown_headers = l }))
        (append_assoc pkt.unknown_headers (Protocol.unknown name contents ∷ []) ps)
read_headers-unknown pkt (Protocol.ethernet _ _ _ ∷ ps) h = absurd h.0
read_headers-unknown pkt (Protocol.vlan _ _ _ ∷ ps) h = absurd h.0
read_headers-unknown pkt (Protocol.ipv4 _ _ _ ∷ ps) h = absurd h.0
read_headers-unknown pkt (Protocol.tcp _ _ ∷ ps) h = absurd h.0
read_headers-unknown pkt (Protocol.udp _ _ ∷ ps) h = absurd h.0
read_headers-unknown pkt (Protocol.arp _ _ _ _ _ ∷ ps) h = absurd h.0
read_headers-unknown pkt (Protocol.raw _ ∷ ps) h = absurd h.0

-- The checks leave an ARP packet with what its header needs.
check_ip-arp :
    (pkt : Packet)
    → is_number pkt.eth_type 0x806 ≡ true
    → check_ip pkt ≡ ok tt
    → (is_some pkt.ip_proto ≡ true) × (is_some pkt.ip4_src ≡ true) × (is_some pkt.ip4_dst ≡ true)
unfolding check_ip
check_ip-arp pkt a h = ground arith

given-is_some : {A : Type 0} (o : Option A) → is_some o ≡ true → (a : A) × (given o ≡ ok a)
given-is_some none h = cc
given-is_some (some a) h = (a, refl)

failure-inner :
    (pkt : Packet) (src dst : Text) (type' : ℕ)
    → pkt.eth_type ≡ some type'
    → check_ip pkt ≡ ok tt
    → failure (inner pkt src dst type')
      ≡ (if is_some pkt.vlan || type' == 0x800 then some name_error else none)
unfolding inner
failure-inner pkt src dst type' c h = elim (Bool-cases (is_some pkt.vlan)) [
  | inl e ↦ rw e refl
  | inr e ↦ elim (Bool-cases (type' == 0x806)) [
    | inl k ↦
        let (i, s, d) = check_ip-arp pkt (rw c k) h in
        let (opcode, i') = given-is_some pkt.ip_proto i in
        let (src_ip, s') = given-is_some pkt.ip4_src s in
        let (dst_ip, d') = given-is_some pkt.ip4_dst d in
        let other : (type' == 0x800) ≡ false = ground arith in
        rw e (rw k (rw other (rw i' (rw s' (rw d' refl)))))
    | inr k ↦
        rw e (rw k (elim (Bool-cases (type' == 0x800)) [ inl l ↦ rw l refl | inr l ↦ rw l refl ]))
  ]
]

failure->>=-ok :
    {A B : Type 0} (r : Result A) (f : A → B) → failure (r >>= λ a. ok (f a)) ≡ failure r
failure->>=-ok (ok a) f = refl
failure->>=-ok (err e) f = refl

-- For a packet with addresses and an Ethernet type other than 0x8100 that passes the checks of its IP
-- and port fields: to_payload raises a NameError if the packet has a VLAN or is IPv4, since the modules
-- that would build their headers are not imported, and else it raises nothing.
pub failure-to_payload :
    (serialize : List Protocol → Text) (rph : List Protocol) (pkt : Packet) (src dst : Text)
    (type' : ℕ)
    → pkt.eth_src ≡ some src
    → pkt.eth_dst ≡ some dst
    → pkt.eth_type ≡ some type'
    → (type' == 0x8100) ≡ false
    → check_ip pkt ≡ ok tt
    → failure (to_payload serialize rph pkt)
      ≡ (if is_some pkt.vlan || type' == 0x800 then some name_error else none)
unfolding to_payload
failure-to_payload serialize rph pkt src dst type' a b c t h =
    rw (a, to_payload)
      (rw (h, check_ip)
        (rw b (
          rw c (
            rw t (
              failure->>=-ok (◌>>=◌ {B = List Protocol} (inner pkt src dst type') _) _
              ∙ failure->>=-ok (inner pkt src dst type') _
              ∙ failure-inner pkt src dst type' c h)))))

-- The fields of a packet that to_payload can send.
abbrev pub plain :
    ℕ → ℕ → Text → Text → ℕ → Option Text → Option Text → Option ℕ → List Protocol → Packet
plain dpid port_id src dst type' ip_src ip_dst proto un = record {
  switch = some dpid;
  port = some port_id;
  eth_src = some src;
  eth_dst = some dst;
  eth_type = some type';
  vlan = none;
  vlan_pcp = none;
  ip4_src = ip_src;
  ip4_dst = ip_dst;
  ip_proto = proto;
  tcp_src_port = none;
  tcp_dst_port = none;
  unknown_headers = un;
}

module _ (dpid port_id : ℕ) (src dst : Text) (type' : ℕ) (un : List Protocol)
    (h : All IsUnknown un) where
  read_plain :
      (type' == 0x8100) ≡ false
      → read_headers (empty dpid port_id) (Protocol.ethernet src dst type' ∷ un)
        ≡ ok (plain dpid port_id src dst type' none none none un)
  unfolding read_headers
  read_plain t = rw t (read_headers-unknown _ un h)

  read_arp :
      (opcode : ℕ) (src_ip dst_ip : Text)
      → (type' == 0x8100) ≡ false
      → read_headers
          (empty dpid port_id)
          (Protocol.ethernet src dst type' ∷ Protocol.arp opcode src_ip dst_ip src dst ∷ un)
        ≡ ok (plain dpid port_id src dst type' (some src_ip) (some dst_ip) (some opcode) un)
  unfolding read_headers
  read_arp opcode src_ip dst_ip t = rw t (read_headers-unknown _ un h)

  read_sent :
      (ip_src ip_dst : Option Text) (proto : Option ℕ) (ps : List Protocol)
      → to_protocols [] (plain dpid port_id src dst type' ip_src ip_dst proto un) ≡ ok ps
      → read_headers (empty dpid port_id) ps
        ≡ ok (plain dpid port_id src dst type' ip_src ip_dst proto un)
  unfolding to_protocols
  read_sent none none none ps e =
      let list : Protocol.ethernet src dst type' ∷ un ≡ ps = ground arith in
      rw (← list) (read_plain (ground arith))
  read_sent (some src_ip) (some dst_ip) (some opcode) ps e =
      let list : Protocol.ethernet src dst type' ∷ Protocol.arp opcode src_ip dst_ip src dst ∷ un
          ≡ ps =
        ground arith in
      rw (← list) (read_arp opcode src_ip dst_ip (ground arith))
  read_sent none none (some c) ps e = ground arith
  read_sent none (some b) c ps e = ground arith
  read_sent (some a) none c ps e = ground arith
  read_sent (some a) (some b) none ps e = ground arith

  -- A packet with no VLAN and no ports that to_payload sends is read back by from_payload as it
  -- was, if the library's parser takes its frame apart into the headers that made it.
  pub from_payload-to_payload :
      (ip_src ip_dst : Option Text) (proto : Option ℕ) (ps : List Protocol)
      (parse : Text → List Protocol) (serialize : List Protocol → Text)
      → parse (serialize ps) ≡ ps
      → to_protocols [] (plain dpid port_id src dst type' ip_src ip_dst proto un) ≡ ok ps
      → from_payload parse dpid port_id (serialize ps)
        ≡ ok (plain dpid port_id src dst type' ip_src ip_dst proto un)
  unfolding from_payload
  from_payload-to_payload ip_src ip_dst proto ps parse serialize e h =
      rw e (read_sent ip_src ip_dst proto ps h)
