-- ===== src/Tests/Wire.antt =====
-- The theorems on the protocol and the cache at concrete inputs.
use adb_wfx_plugin.Base.{
  ℕ, ◌≤◌, ◌<◌, ◌+◌, ◌≡◌, ◌⊎◌, refl, none, some, false, List, [], ◌∷◌, Bytes, codes, All, length,
  drop,
}
use adb_wfx_plugin.Base.Int.{pos}
use adb_wfx_plugin.Proto.{read_u32_le, parse_dent_body}
use adb_wfx_plugin.Proto.Entry.{DirEntry, empty_entry}
use adb_wfx_plugin.Proto.Packets.{parse_dent_body_bounds}
use adb_wfx_plugin.Proto.Devices.Lines.{DeviceLine, IsPrintable}
use adb_wfx_plugin.ListingCache.{get}
use adb_wfx_plugin.ListingCache.History.{
  Call, puts, gets, run, left, drop_expired, listing_of, get-run,
}

abbrev photo : DirEntry
photo = record {
  name = codes "a.jpg";
  mode = 0o100644;
  size = 70000;
  mtime = pos 1700000000;
  symlink_target_is_dir = false;
}

-- A body that announces a name of 255 bytes and holds one.
abbrev hostile : Bytes
hostile = 0 ∷ 0 ∷ 0 ∷ 0 ∷ 0 ∷ 0 ∷ 0 ∷ 0 ∷ 0 ∷ 0 ∷ 0 ∷ 0 ∷ 255 ∷ 0 ∷ 0 ∷ 0 ∷ b'x' ∷ []

parse_dent_body_bounds_example :
    ((parse_dent_body hostile empty_entry ≡ none)
      × (length hostile < 16 + read_u32_le (drop 12 hostile)))
    ⊎ ((e : DirEntry) × (n : ℕ) × (parse_dent_body hostile empty_entry ≡ some (e, n))
        × (n ≤ length hostile)
        × (length e.name ≡ read_u32_le (drop 12 hostile))
        × (n ≡ 16 + length e.name))
parse_dent_body_bounds_example = parse_dent_body_bounds hostile empty_entry

abbrev pub phones : List DeviceLine
phones =
    record {
      serial = codes "AB";
      padding = 3;
      state = codes "device";
      before = codes "usb:3" ∷ codes "product:p" ∷ [];
      model = codes "P7";
      after = codes "transport_id:2" ∷ [];
    }
    ∷ record {
      serial = codes "C";
      padding = 0;
      state = codes "offline";
      before = codes "usb:1" ∷ [];
      model = [];
      after = [];
    }
    ∷ []

pub phones-IsPrintable : All IsPrintable phones
unfolding adb_wfx_plugin.Base.starts_with
phones-IsPrintable = (
  record {
    serial = record { filled = λ e. cc; unbroken = (refl, (refl, tt)) };
    not_header = λ e. cc;
    state = record {
      filled = λ e. cc;
      unbroken = (refl, (refl, (refl, (refl, (refl, (refl, tt))))));
    };
    before = (
      record {
        text = record { filled = λ e. cc; unbroken = (refl, (refl, (refl, (refl, (refl, tt))))) };
        no_model = refl;
      },
      (
        record {
          text = record {
            filled = λ e. cc;
            unbroken = (refl, (refl, (refl, (refl, (refl, (refl, (refl, (refl, (refl, tt)))))))));
          };
          no_model = refl;
        },
        tt,
      ),
    );
    model = (refl, (refl, tt));
    after = (
      record {
        text = record {
          filled = λ e. cc;
          unbroken = (
            refl,
            (
              refl,
              (
                refl,
                (
                  refl,
                  (
                    refl,
                    (refl, (refl, (refl, (refl, (refl, (refl, (refl, (refl, (refl, tt))))))))),
                  ),
                ),
              ),
            ),
          );
        };
        no_model = refl;
      },
      tt,
    );
  },
  (
    record {
      serial = record { filled = λ e. cc; unbroken = (refl, tt) };
      not_header = λ e. cc;
      state = record {
        filled = λ e. cc;
        unbroken = (refl, (refl, (refl, (refl, (refl, (refl, (refl, tt)))))));
      };
      before = (
        record {
          text = record { filled = λ e. cc; unbroken = (refl, (refl, (refl, (refl, (refl, tt))))) };
          no_model = refl;
        },
        tt,
      );
      model = tt;
      after = tt;
    },
    tt,
  ),
)

-- The latest call first.
abbrev calls : List Call
calls = gets (codes "/AB/b") (pos 3) ∷ puts (codes "/AB/a") (photo ∷ []) (pos 2) ∷ []

get-run_example :
    (get (run (pos 5) calls) (codes "/AB/a") (pos 4)).0
    ≡ listing_of (drop_expired (pos 5) (pos 4) (left (pos 5) (codes "/AB/a") calls))
get-run_example = get-run (pos 5) (codes "/AB/a") (pos 4) calls
