-- ===== src/Lib.antt =====
-- The Python of hexe: the painters that draw its chrome, the replay of recorded screens, and the
-- recorder of its films. The multiplexer itself is written in Zig and is not modelled here.
--
-- Parts, and the files that model them:
--   Wire       the framing between hexe and a painter, a four-byte length and a body:
--              `recv_frame` and `send_frame` of contrib/painter.py and
--              contrib/painter_showcase.py. A pipe is the list of the chunks that its reads
--              deliver; `fill` is the loop of reads, `recv_body` and `frame_bytes` the two ends.
--   Painter    contrib/painter.py. Segments is `fish_truncate` and `battery_text`, Status is
--              `view_status`, Badges `view_title` and `view_share`, Serve `main` with its
--              exceptions and the table of views.
--   Showcase   contrib/painter_showcase.py. Status is `view_status` with `emit`, Sprite is
--              `sprite_ansi` and `view_sprite`, Views `view_title` and `render`, Strip is
--              `filmstrip`, Serve is `main`.
--   Frame      scripts/demo/frame.py. The class `Screen`: its cells and cursor (`put`,
--              `newline`, `erase_line`, `erase_display`), Frame/Feed its reader of escape
--              sequences (`feed`, `csi`), Frame/Replay `render` over the events of a cast.
--   Film       scripts/demo/record.py. Tables and Keys are `keyspec`, Mouse is `mousespec`, Script
--              what `Recorder.__init__` reads from a demo, Subst is `subst`, Pump is `pump`,
--              Environ `environ`, and Run is `run` as the list of what it does. Cast is
--              `write_cast` with `load` of scripts/demo/frame.py, which reads what it writes.
--   Decor      the class `Screen` of scripts/smoke_decor.py: Feed is `feed` with `_csi`, Decode the
--              decoding of UTF-8 that it uses.
--   Heavy      scripts/smoke_heavy2.py, the pty through which it drives a frontend: `safe_write`
--              and `paste`, Looks `read_until`, `drain` and `shell_ready`, Floats
--              `swap_float_cmds`.
--   Stubs      the painters that the tests give to hexe: Panels is `answer` of
--              scripts/smoke_decor.py, Bar the painter of scripts/smoke_region_painter.py; `serve`
--              is the loop of `serve_stdio` that both have.
--   Zones      `bar_rows` and `column_of` of scripts/smoke_status_zones.py.
--   Replies    `host_answers` and `host`, the terminals of scripts/smoke_color_reply_routing.py
--              and, in Csi and Cache, of scripts/smoke_csi_reply_routing.py and
--              scripts/smoke_color_cache.py.
--   Spans      `spans_width`, the checks of `full_width` and `two_fills`, and `wait_for` of
--              scripts/smoke_stretch.py.
--   Client     the clients of the control socket: in Events `recv_frame`, `call`, `subscribe` and
--              `collect` of scripts/smoke_api_events.py; in Calls `call`, `raw_api` and `api` of
--              scripts/smoke_api_socket.py, and `api`, `ok`, `panes` and `by_uuid` of
--              scripts/smoke_api_geometry.py. Line is a connection under a timeout.
--   Share      contrib/share-echo.py: `main` over the lines of a cast.
--   Blend      scripts/demo_blend.py: `parse_state` and `sample`, in Watch `render` and the loop of
--              `main`.
--   Stretch    scripts/demo_stretch.py: `stretch` and `fixed`, in Demo `supported` and `main`.
--   Palette    contrib/palette_demo.py: `osc`, `band` and `main`; Tags is what a terminal that knows
--              palette namespaces makes of a text.
--   Prelude    what these share: tests on native numbers, lists measured by them, text as code
--              points, the parts of Python's `str` that the programs use, and signed integers.
--   Tests      runs at fixed inputs, and each theorem at an input where its hypotheses hold.
--
-- How they interact: a painter is a child of hexe that reads requests and writes answers in the
-- framing of Wire; its loops (Painter/Serve, Showcase/Serve) call the views. The recorder writes
-- a cast of what a frontend drew on a pty, and frame.py replays such a cast on its own screen.
-- The terminals that read what Film/Keys, Showcase/Sprite and Blend send go by the grammar of
-- Frame/Feed.
--
-- The tests drive hexe from both ends: through the pty of its frontend (Heavy), as the terminal
-- that this frontend queries (Replies), and as its painter, in the framing of Wire (Stubs); Decor,
-- Zones and Spans read what it has drawn, and Client asks it over its control socket, in frames
-- like those of Wire.
--
-- State is passed explicitly: the pipe and the sink of a loop, the bar that `emit` extends, the
-- screen, the camera of the recorder. A missing value stands for an exception where the caller
-- does not tell exceptions apart (IndexError on the screen, SystemExit for a key), and `Exc`
-- names them where `main` of the painter does.
--
-- A loop around `select` or a read has a list of rounds in place of the world: what the call
-- reports, what the read gives, how much a write takes, and the clock as the code reads it.
--
-- Fuel: a loop of reads gets one round more than the bytes it wants, since each round that goes
-- on delivers a byte; the loops of the painters, one more than the frames or the bytes of the
-- pipe; the readers of the two screens, the length of their text, since each round takes a
-- character or a byte; the swap of the floats, one more than the length of the layout; the loops
-- of the tests' painters, one more than the frames; the scan of `subst` likewise; a strip, its sixty-four frames.
--
-- Numbers are native and unbounded, as Python's are; where the code goes below zero it is
-- written with signed integers (the cursor of the screen) or shown not to matter (the layout of
-- the bar). Times are in milliseconds.
--
-- Parameters: JSON's `loads` and `dumps`, the clock and the battery's text, the views of a site,
-- and what the pty delivers. Their functions are arguments, with no assumption on them beyond what
-- a theorem states.
--
-- Not modelled: files, environment variables, processes, ptys and terminals (battery_text has
-- the listing of its directory instead, and `run` the order of what it does); the threads of the
-- recorder, whose inputs are a sequence; `cleanup` and `report`, which are single acts; what the
-- scripts of the tests do to hexe, of which only the parts named above are pure enough; the time
-- that a client of the control socket takes between its reads; requests with a null where the
-- showcase has a default only; numbers in a demo file that are no plain decimals; the lower case
-- of letters beyond ASCII.
pub mod Prelude
pub mod Wire
pub mod Painter
pub mod Showcase
pub mod Frame
pub mod Film
pub mod Decor
pub mod Share
pub mod Blend
pub mod Stretch
pub mod Palette
pub mod Heavy
pub mod Stubs
pub mod Zones
pub mod Replies
pub mod Spans
pub mod Client
pub mod Tests
