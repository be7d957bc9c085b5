-- ===== src/Examples/Receiving.antt =====
-- Tests and instances at a concrete input: found payments and the tables that keep them.
use kiss_bdk.SpSpend.{StoredOut}
use kiss_bdk.SpScan.{Scanner, SpOut, TaprootOut, Found, scan_candidate, at_height}
use kiss_bdk.SpScan.Laws.{taproot_outs, found_under, scan_candidate-scan_txouts}
use kiss_bdk.SpReceive.{strip_descriptor, strip_origin, decode_hex, decode_pairs}
use kiss_bdk.SpReceive.Laws.{with_origin, in_sp, strip_descriptor-forms, decode_hex-hex}
use kiss_bdk.Shared.Session.Start.{hex}
use kiss_bdk.SpStore.{Tables, put_found, forget_from}
use kiss_bdk.SpStore.Laws.{
  row_at, merge_all, put_found-row_at, Change, Changes, IsKeyed, Changes-IsKeyed,
  forget_from-row_at,
}
use kiss_bdk.Psbt.{OutPoint-discrete, TxOut, OutPoint, Transaction}
use kiss_bdk.Common.{
  ◌>>◌, Bytes-discrete, codes, arith, ◌>>=◌, ℕ, Bytes, none, some, [], ◌∷◌, map, replicate, refl,
  ◌≡◌, ap, ok, length, ◌↔◌, ◌<◌, ◌⊎◌, ◌+◌,
}

abbrev spend_key : Bytes
spend_key = replicate 32 7

abbrev paid : TxOut
paid = record { value = 10000; script_pubkey = 0x51 ∷ 0x20 ∷ spend_key }

abbrev other : TxOut
other = record { value = 546; script_pubkey = 0 ∷ 0x14 ∷ [] }

abbrev payment : Transaction
payment = record {
  version = 2;
  lock_time = 0;
  input = [];
  output = other ∷ other ∷ paid ∷ other ∷ [];
}

-- Every taproot output is this wallet's.
abbrev out_of : Bytes → TaprootOut → SpOut
out_of shared out = record {
  outpoint = record { txid = []; vout = out.vout };
  tweak = shared;
  script_pubkey = 0x51 ∷ 0x20 ∷ out.key;
  amount = out.amount;
  label = none;
}

abbrev toy_scanner : Scanner
toy_scanner = record {
  scan_tx = λ tx prevouts. some (map (out_of []) (taproot_outs tx.output));
  scan_txouts = λ tx shared. some (map (out_of shared) (taproot_outs tx.output));
  get_spks_from_tweak = λ tweak order. (0x51 ∷ 0x20 ∷ tweak) ∷ [];
  shared_secret = λ tweak. 1 ∷ tweak;
}

abbrev found_out : SpOut
found_out = record {
  outpoint = record { txid = 5 ∷ []; vout = 2 };
  tweak = 1 ∷ spend_key;
  script_pubkey = 0x51 ∷ 0x20 ∷ spend_key;
  amount = 10000;
  label = none;
}

stream_test :
    scan_candidate toy_scanner
      (record { txid = 5 ∷ []; tweak = spend_key; outputs = taproot_outs payment.output })
      9
    ≡ ok (at_height 9 found_out ∷ [])
unfolding scan_candidate ◌>>=◌
stream_test = refl

scan_candidate-scan_txouts_example :
    scan_candidate toy_scanner
      (record { txid = 5 ∷ []; tweak = spend_key; outputs = taproot_outs payment.output })
      9
    ≡ found_under (5 ∷ []) 9 (toy_scanner.scan_txouts payment (toy_scanner.shared_secret spend_key))
scan_candidate-scan_txouts_example =
    scan_candidate-scan_txouts toy_scanner
      (λ txid shared height t u e.
        ap (λ outs. found_under txid height (some (map (out_of shared) outs))) e)
      payment (5 ∷ []) spend_key 9 (λ e. cc)

abbrev seen : ℕ → Found
seen height = at_height height found_out

abbrev nothing : Tables
nothing = record { keys = none; rows = []; watermark = none }

abbrev place : OutPoint
place = record { txid = 5 ∷ []; vout = 2 }

rescan_test : length (put_found (seen 110 ∷ []) (put_found (seen 100 ∷ []) nothing)).rows ≡ 1
unfolding put_found OutPoint-discrete
rescan_test = refl

reorg_test : (forget_from 110 (put_found (seen 110 ∷ []) nothing)).1 ≡ 1
unfolding put_found forget_from
reorg_test = refl

put_found-row_at_example :
    row_at place (put_found (seen 110 ∷ seen 120 ∷ []) nothing).rows
    ≡ merge_all place (seen 110 ∷ seen 120 ∷ []) (row_at place nothing.rows)
put_found-row_at_example = put_found-row_at place (seen 110 ∷ seen 120 ∷ []) nothing

Changes-IsKeyed_example :
    IsKeyed (put_found (seen 110 ∷ []) (put_found (seen 100 ∷ []) nothing)).rows
Changes-IsKeyed_example =
    Changes-IsKeyed
      (Changes.and_then
        (Changes.and_then (Changes.none_yet nothing) (Change.found (seen 100 ∷ []) nothing))
        (Change.found (seen 110 ∷ []) (put_found (seen 100 ∷ []) nothing)))
      tt

abbrev stored : Tables
stored = record {
  keys = none;
  rows =
      record {
        outpoint = place;
        tweak = [];
        script_pubkey = [];
        amount = 10000;
        label = none;
        height = 110;
      }
      ∷ [];
  watermark = none;
}

forget_from-row_at_example :
    ((row : StoredOut)
      → (row_at place (forget_from 110 stored).0.rows ≡ some row)
        ↔ ((row_at place stored.rows ≡ some row) × ((row.height < 110) ⊎ (row.height ≡ 0))))
    × (length (forget_from 110 stored).0.rows + (forget_from 110 stored).1 ≡ length stored.rows)
    × ((forget_from 110 stored).0.keys ≡ stored.keys)
    × ((forget_from 110 stored).0.watermark ≡ stored.watermark)
forget_from-row_at_example = forget_from-row_at place 110 stored (refl, tt)

abbrev bare_key : Bytes
bare_key = codes "tspscan1qq"

abbrev some_origin : Bytes
some_origin = codes "73c5da0a/352h/1h/0h"

strip_descriptor-forms_example :
    (strip_descriptor bare_key ≡ ok bare_key)
    × (strip_descriptor (with_origin some_origin bare_key) ≡ ok bare_key)
    × (strip_descriptor (in_sp bare_key) ≡ ok bare_key)
    × (strip_descriptor (in_sp (with_origin some_origin bare_key)) ≡ ok bare_key)
unfolding Bytes-discrete
strip_descriptor-forms_example =
    strip_descriptor-forms some_origin bare_key (ground arith) refl refl

decode_hex-hex_example : decode_hex (hex (0 ∷ 171 ∷ 255 ∷ [])) ≡ ok (0 ∷ 171 ∷ 255 ∷ [])
decode_hex-hex_example =
    decode_hex-hex (0 ∷ 171 ∷ 255 ∷ []) (omega arith, (omega arith, (omega arith, tt)))

-- A plus sign is read as part of a pair of digits.
plus_sign_test : decode_hex (codes "+a+b") ≡ ok (10 ∷ 11 ∷ [])
unfolding decode_hex decode_pairs ◌>>=◌ ◌>>◌
plus_sign_test = refl

export_test : strip_descriptor (codes "sp([73c5da0a/352h]tspscan1qq)") ≡ ok bare_key
unfolding strip_descriptor strip_origin ◌>>=◌ Bytes-discrete
export_test = refl
